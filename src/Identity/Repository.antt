-- ===== src/Identity/Repository.antt =====
-- modules/identity/infrastructure/persistence/prisma-user.repository.ts and
-- prisma-refresh-token.repository.ts. An `upsert` replaces the row with the id, or inserts one; both
-- refuse a clash with another row on a unique column.
pub mod Tokens
pub mod Guarded
use kudi_ai.Common.{
  String, ℕ, Bool, not, ◌&&◌, ◌||◌, Option, none, some, List, [], ◌∷◌, ◌++◌, ◌==◌, ltb,
  if◌then◌else◌,
}
use kudi_ai.Shared.Errors.{Result, ok, err}
use kudi_ai.Shared.Action.{Action, pure, lift, gets, modify, throw_if, ◌>>=◌, ◌>>◌}
use kudi_ai.Database.{World, query, set_users, set_refresh_tokens}
use kudi_ai.Database.Schema.{UserRecord, RefreshTokenRecord}
use kudi_ai.Database.Tables.{find, any, count, update_many, update_each, delete_many}
use kudi_ai.Accounts.Repository.{unique_violation}
use kudi_ai.Identity.User.{User, to_domain, to_persistence}
use kudi_ai.Identity.RefreshToken.{is_revoked}

abbrev pub has_id : String → UserRecord → Bool
has_id id r = r.id == id

abbrev pub has_email : String → UserRecord → Bool
has_email email r = r.email == email

-- `record ? UserMapper.toDomain(record) : null`
unfoldable pub read_user : Option UserRecord → Result (Option User)
read_user none = ok none
read_user (some r) = elim (to_domain r) [ ok u ↦ ok (some u) | err e ↦ err e ]

unfoldable pub find_user_by_id : String → Action World (Option User)
find_user_by_id id = do query; row ← gets (λ w. find (has_id id) w.db.users); lift (read_user row)

unfoldable pub find_by_email : String → Action World (Option User)
find_by_email email = do
  query
  row ← gets (λ w. find (has_email email) w.db.users)
  lift (read_user row)

unfoldable pub exists_by_email : String → Action World Bool
exists_by_email email = do query; gets (λ w. ltb 0 (count (has_email email) w.db.users))

-- Another row has a unique column of this one.
abbrev pub clashes : UserRecord → UserRecord → Bool
clashes row r = not (r.id == row.id) && (r.email == row.email || r.phone_number == row.phone_number)

-- `upsert` on the rows of the table.
abbrev pub upsert_user : UserRecord → List UserRecord → List UserRecord
upsert_user row rows =
    if any (has_id row.id) rows then update_many (has_id row.id) row rows else rows ++ row ∷ []

unfoldable pub save_user : User → Action World (Unit {0})
save_user u = do
  query
  rows ← gets (λ w. w.db.users)
  throw_if (any (clashes (to_persistence u)) rows) unique_violation
  modify (set_users (upsert_user (to_persistence u) rows))

abbrev pub has_token_id : String → RefreshTokenRecord → Bool
has_token_id id t = t.id == id

abbrev pub has_hash : String → RefreshTokenRecord → Bool
has_hash hash t = t.token_hash == hash

unfoldable pub find_token_by_id : String → Action World (Option RefreshTokenRecord)
find_token_by_id id = do query; gets (λ w. find (has_token_id id) w.db.refresh_tokens)

unfoldable pub find_by_token_hash : String → Action World (Option RefreshTokenRecord)
find_by_token_hash hash = do query; gets (λ w. find (has_hash hash) w.db.refresh_tokens)

abbrev pub same_hash : RefreshTokenRecord → RefreshTokenRecord → Bool
same_hash row t = not (t.id == row.id) && t.token_hash == row.token_hash

abbrev pub upsert_token : RefreshTokenRecord → List RefreshTokenRecord → List RefreshTokenRecord
upsert_token row rows =
    if any (has_token_id row.id) rows
    then update_many (has_token_id row.id) row rows
    else rows ++ row ∷ []

unfoldable pub save_token : RefreshTokenRecord → Action World (Unit {0})
save_token row = do
  query
  rows ← gets (λ w. w.db.refresh_tokens)
  throw_if (any (same_hash row) rows) unique_violation
  modify (set_refresh_tokens (upsert_token row rows))

-- `where: { …, revokedAt: null }`
abbrev pub is_unrevoked_and : (RefreshTokenRecord → Bool) → RefreshTokenRecord → Bool
is_unrevoked_and test t = test t && not (is_revoked t)

-- `updateMany` that sets `revokedAt`.
unfoldable pub revoke_where : (RefreshTokenRecord → Bool) → Action World (Unit {0})
revoke_where test = do
  query
  now ← gets (λ w. w.now)
  rows ← gets (λ w. w.db.refresh_tokens)
  modify (
      set_refresh_tokens
        (update_each (is_unrevoked_and test) (λ t. record t { revoked_at = some now }) rows))

abbrev pub revoke_family : String → Action World (Unit {0})
revoke_family family = revoke_where (λ t. t.family == family)

abbrev pub revoke_all_for_user : String → Action World (Unit {0})
revoke_all_for_user user_id = revoke_where (λ t. t.user_id == user_id)

-- `deleteExpired`; the number of rows that it deletes.
unfoldable pub delete_expired : Action World ℕ
delete_expired = do
  query
  now ← gets (λ w. w.now)
  rows ← gets (λ w. w.db.refresh_tokens)
  modify (set_refresh_tokens (delete_many (λ t. ltb t.expires_at now) rows))
  pure (count (λ t. ltb t.expires_at now) rows)
