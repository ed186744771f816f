-- ===== src/Identity/Sessions/Ending.antt =====
-- What ends the sessions of a user: a new password, and a logout.
use kudi_ai.Common.{
  ◌≡◌, sym, ap, ◌∙◌, arith, ◌≤◌, String, Bool, true, Option, none, some, codes, inl, inr, ◌==◌,
}
use kudi_ai.Shared.Errors.{ok, Result-cases}
use kudi_ai.Database.{World, query-frame, publish_all}
use kudi_ai.Database.Schema.{RefreshTokenRecord}
use kudi_ai.Identity.Values.{create_plain_password, from_hash, utf16_length, min_length}
use kudi_ai.Identity.User.{User, change_password, to_persistence}
use kudi_ai.Identity.Repository.{find_user_by_id, save_user, revoke_where, upsert_user}
use kudi_ai.Identity.Services.{PasswordHasher, TokenService}
use kudi_ai.Identity.Sessions.{ChangePasswordCommand, change_password_of, change_password_handler}
use kudi_ai.Identity.Repository.Tokens.{AllRevoked, revoke_where-AllRevoked}

-- The new row of the user, and the end of the sessions.
pub record IsChanged (hasher : PasswordHasher) (c : ChangePasswordCommand) (u : User) (w w' : World)
    : Type 0 where
  pub matched : hasher.compare c.current_password u.password_hash ≡ ok true
  strong : min_length ≤ utf16_length (codes c.new_password)
  pub hash : String
  pub hashed : hasher.hash c.new_password ≡ ok hash
  pub users :
      w'.db.users
      ≡ upsert_user (record u.props { password_hash = hash; updated_at = w.now }) w.db.users
  pub revoked : AllRevoked (λ t. t.user_id == u.id) w'.db.refresh_tokens

create_plain_password-eq_ok :
    (raw p : String)
    → create_plain_password raw ≡ ok p
    → (p ≡ raw) × (min_length ≤ utf16_length (codes raw))
unfolding create_plain_password
create_plain_password-eq_ok raw p h = (ground arith, ground arith)

save_user-eq_ok :
    (u : User) (w : World) {w' : World}
    → save_user u w ≡ (ok tt, w')
    → w'.db.users ≡ upsert_user u.props w.db.users
unfolding save_user to_persistence
save_user-eq_ok u w h = ground (arith, query-frame w)

revoke_where-users :
    (test : RefreshTokenRecord → Bool) (w : World) → (revoke_where test w).1.db.users ≡ w.db.users
unfolding revoke_where
revoke_where-users test w = ground (arith, query-frame w)

change_password_of-IsChanged :
    (hasher : PasswordHasher) (tokens : TokenService) (c : ChangePasswordCommand) (u : User)
    (w : World) {w' : World}
    → change_password_of hasher tokens c u w ≡ (ok tt, w')
    → IsChanged hasher c u w w'
unfolding change_password_of from_hash change_password publish_all
change_password_of-IsChanged hasher tokens c u w {w'} h =
    elim (Result-cases (hasher.compare c.current_password u.password_hash)) [
      | inr (x, e) ↦ absurd (ground arith)
      | inl (matches, e) ↦ elim (Result-cases (create_plain_password c.new_password)) [
        | inr (x, f) ↦ absurd (ground arith)
        | inl (plain, f) ↦
            let (same, strong) = create_plain_password-eq_ok c.new_password plain f in
            elim (Result-cases (hasher.hash plain)) [
              | inr (x, g) ↦ absurd (ground arith)
              | inl (hash, g) ↦
                  let v = change_password w.now hash u in
                  let w₁ = (save_user v w).1 in
                  elim (Result-cases (save_user v w).0) [
                    | inr (x, i) ↦ absurd (ground arith)
                    | inl (_, i) ↦
                        let test : RefreshTokenRecord → Bool = λ t. t.user_id == u.id in
                        let w₂ = (revoke_where test w₁).1 in
                        elim (Result-cases (revoke_where test w₁).0) [
                          | inr (x, j) ↦ absurd (ground arith)
                          | inl (_, j) ↦
                              let saved = save_user-eq_ok v w {w' = w₁} (ground arith) in
                              let kept = revoke_where-users test w₁ in
                              let all = revoke_where-AllRevoked test w₁ {w' = w₂} (ground arith) in
                              let db : w'.db ≡ w₂.db = ground arith in
                              record {
                                matched = ground arith;
                                strong = strong;
                                hash = hash;
                                hashed = ap hasher.hash (sym same) ∙ g;
                                users = ap (λ b. b.users) db ∙ kept ∙ saved;
                                revoked = rw db all;
                              }
                        ]
                  ]
            ]
      ]
    ]

find_user_by_id-now :
    (id : String) (w : World)
    → let w' = (find_user_by_id id w).1 in (w'.db ≡ w.db) × (w'.now ≡ w.now)
unfolding find_user_by_id
find_user_by_id-now id w = ground (arith, query-frame w)

-- Whatever the hasher does and whatever calls of the client fail: if the password change returns,
-- the current password matched the user's hash, the new one has ten characters or more, the user's
-- row has its hash and is otherwise that of the user, and no token of the user is left unrevoked.
pub change_password_handler-IsChanged :
    (hasher : PasswordHasher) (tokens : TokenService) (c : ChangePasswordCommand) (w : World)
    {w' : World}
    → change_password_handler hasher tokens c w ≡ (ok tt, w')
    → (u : User) × ((find_user_by_id c.user_id w).0 ≡ ok (some u))
      × IsChanged hasher c u (find_user_by_id c.user_id w).1 w'
      × ((find_user_by_id c.user_id w).1.db ≡ w.db)
unfolding change_password_handler
change_password_handler-IsChanged hasher tokens c w {w'} h =
    elim (Result-cases (find_user_by_id c.user_id w).0) [
      | inr (x, e) ↦ absurd (ground arith)
      | inl (o, e) ↦ by_user o e
    ]
  where
    by_user :
        (o : Option User)
        → (find_user_by_id c.user_id w).0 ≡ ok o
        → (u : User) × ((find_user_by_id c.user_id w).0 ≡ ok (some u))
          × IsChanged hasher c u (find_user_by_id c.user_id w).1 w'
          × ((find_user_by_id c.user_id w).1.db ≡ w.db)
    by_user none e = absurd (ground arith)
    by_user (some u) e =
        let w₁ = (find_user_by_id c.user_id w).1 in
        (
          u,
          e,
          change_password_of-IsChanged hasher tokens c u w₁ {w' = w'} (ground arith),
          (find_user_by_id-now c.user_id w).0,
        )
