-- ===== src/Compliance/Repository.antt =====
-- modules/compliance/infrastructure/persistence/prisma-kyc-profile.repository.ts, whose mapper
-- copies the columns.
use kudi_ai.Common.{
  String, ℕ, ◌-◌, Bool, ◌&&◌, ◌||◌, Option, none, some, List, [], ◌∷◌, ◌++◌, ◌==◌, eqb, ltb,
  if◌then◌else◌,
}
use Prim.Native.String
use kudi_ai.Shared.Events.{DomainEvent}
use kudi_ai.Shared.Action.{Action, gets, modify, throw_if, ◌>>=◌, ◌>>◌}
use kudi_ai.Database.{World, query, set_kyc_profiles}
use kudi_ai.Database.Tables.{find, any, count, update_many}
use kudi_ai.Accounts.Repository.{concurrent_modification, unique_violation}
use kudi_ai.Compliance.Profile.{Profile, ProfileProps, reconstitute}

-- The events, and the aggregate without them.
unfoldable pub pull_domain_events : Profile → List DomainEvent × Profile
pull_domain_events p = (p.domain_events, record p { domain_events = [] })

abbrev pub read_profile : Option ProfileProps → Option Profile
read_profile none = none
read_profile (some r) = some (reconstitute r)

-- `findByUserId`
unfoldable pub find_by_user_id : String → Action World (Option Profile)
find_by_user_id user_id = do
  query
  gets (λ w. read_profile (find (λ r. r.user_id == user_id) w.db.kyc_profiles))

-- `create`: `id` and `userId` are unique.
unfoldable pub create : ProfileProps → Action World (Unit {0})
create row = do
  query
  rows ← gets (λ w. w.db.kyc_profiles)
  throw_if (any (λ r. r.id == row.id || r.user_id == row.user_id) rows) unique_violation
  modify (set_kyc_profiles (rows ++ row ∷ []))

abbrev pub has_id_version : String → ℕ → ProfileProps → Bool
has_id_version id version r = r.id == id && eqb r.version version

-- The update, refused where the version is not the one before.
unfoldable pub update_versioned : ProfileProps → Action World (Unit {0})
update_versioned row = do
  query
  rows ← gets (λ w. w.db.kyc_profiles)
  modify (set_kyc_profiles (update_many (has_id_version row.id (row.version - 1)) row rows))
  throw_if (eqb (count (has_id_version row.id (row.version - 1)) rows) 0)
      (concurrent_modification (String.◌++◌ "KYC profile " row.id))

-- `save`: `version - 1 < 0` holds at version 0 alone.
unfoldable pub save : Profile → Action World (Unit {0})
save p = if ltb p.version 1 then create p.props else update_versioned p.props
