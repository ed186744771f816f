-- ===== src/Accounts/Repository.antt =====
-- modules/accounts/infrastructure/persistence/prisma-account.repository.ts
pub mod Rows
pub mod Queries
pub mod Concurrency
use kudi_ai.Common.{
  String, ℕ, zero, suc, ◌-◌, Bool, true, false, ◌&&◌, ◌||◌, Option, none, some, List, [], ◌∷◌, ◌++◌,
  ◌==◌, eqb, ltb, if◌then◌else◌,
}
use Prim.Native.String
use kudi_ai.Shared.Errors.{Error, Result, ok, err, domain_exception, failure}
use kudi_ai.Shared.Action.{Action, pure, throw, lift, gets, modify, throw_if, ◌>>=◌, ◌>>◌}
use kudi_ai.Database.{AccountRecord, World, query, set_accounts}
use kudi_ai.Database.Tables.{find, update_many, count, any}
use kudi_ai.Accounts.Account.{Account}
use kudi_ai.Accounts.Mapper.{to_domain, to_persistence}

abbrev pub has_id : String → AccountRecord → Bool
has_id id r = r.id == id

-- `where: { id, version }`
abbrev pub has_id_version : String → ℕ → AccountRecord → Bool
has_id_version id version r = r.id == id && eqb r.version version

-- `record ? AccountMapper.toDomain(record) : null`
unfoldable pub read_account : Option AccountRecord → Result (Option Account)
read_account none = ok none
read_account (some r) = elim (to_domain r) [ ok a ↦ ok (some a) | err e ↦ err e ]

unfoldable pub find_by_id : String → Action World (Option Account)
unfolding query read_account
find_by_id id = do
  query
  found ← gets (λ w. find (has_id id) w.db.accounts)
  lift (read_account found)

abbrev pub concurrent_modification : String → Error
concurrent_modification what =
    domain_exception (String.◌++◌ what " was modified concurrently; please retry")
      "CONCURRENT_MODIFICATION"

abbrev pub unique_violation : Error
unique_violation = failure "Unique constraint failed"

-- `prisma.account.create`: `id` and `accountNumber` are unique.
unfoldable pub create : AccountRecord → Action World (Unit {0})
unfolding query
create row = do
  query
  rows ← gets (λ w. w.db.accounts)
  throw_if (any (λ r. r.id == row.id || r.account_number == row.account_number) rows)
      unique_violation
  modify (set_accounts (rows ++ row ∷ []))

-- `updateMany` on the row with the expected version, and the check of its count.
unfoldable pub update_versioned : AccountRecord → Action World (Unit {0})
unfolding query
update_versioned row = do
  query
  rows ← gets (λ w. w.db.accounts)
  modify (set_accounts (update_many (has_id_version row.id (row.version - 1)) row rows))
  throw_if (eqb (count (has_id_version row.id (row.version - 1)) rows) 0)
      (concurrent_modification (String.◌++◌ "Account " row.id))

-- `save`: `version - 1 < 0` holds at version 0 alone.
unfoldable pub save : Account → Action World (Unit {0})
unfolding create update_versioned to_persistence
save a =
    let row = to_persistence a in if ltb row.version 1 then create row else update_versioned row
