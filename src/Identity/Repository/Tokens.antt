-- ===== src/Identity/Repository/Tokens.antt =====
-- The rows of the refresh tokens under the calls of their repository.
use kudi_ai.Common.{
  ◌≡◌, refl, ap, ◌∙◌, arith, ℕ, String, Bool, true, false, Option, some, List, [], ◌∷◌, ◌++◌, All,
  inl, inr, ◌==◌, eq_refl,
}
use kudi_ai.Shared.Errors.{Error, ok, err, failure, Result-cases}
use kudi_ai.Database.{World, query, query-frame, query-eq_err}
use kudi_ai.Database.Schema.{RefreshTokenRecord}
use kudi_ai.Database.Tables.{find, any, update_each, update_many, find-update_many_fitting}
use kudi_ai.Identity.RefreshToken.{is_revoked}
use kudi_ai.Identity.Repository.{
  find_by_token_hash, find_user_by_id, save_token, revoke_where, is_unrevoked_and, has_hash,
  has_token_id, upsert_token,
}

-- Every row that fits is revoked.
abbrev pub AllRevoked : (RefreshTokenRecord → Bool) → List RefreshTokenRecord → Type 0
AllRevoked test rows = All (λ t. test t ≡ true → is_revoked t ≡ true) rows

update_each-AllRevoked :
    (test : RefreshTokenRecord → Bool) (now : ℕ) (rows : List RefreshTokenRecord)
    → AllRevoked test
        (update_each (is_unrevoked_and test) (λ t. record t { revoked_at = some now }) rows)
update_each-AllRevoked test now [] = tt
update_each-AllRevoked test now (t ∷ rows) = (ground arith, update_each-AllRevoked test now rows)

pub revoke_where-AllRevoked :
    (test : RefreshTokenRecord → Bool) (w : World) {w' : World}
    → revoke_where test w ≡ (ok tt, w')
    → AllRevoked test w'.db.refresh_tokens
unfolding revoke_where
revoke_where-AllRevoked test w {w'} h =
    let kept = query-frame w in
    let same : w'.db.refresh_tokens
        ≡ update_each (is_unrevoked_and test) (λ t. record t { revoked_at = some w.now })
            w.db.refresh_tokens =
      ground arith in
    rw same (update_each-AllRevoked test w.now w.db.refresh_tokens)

pub find_by_token_hash-frame :
    (hash : String) (w : World)
    → let w' = (find_by_token_hash hash w).1 in
      (w'.db ≡ w.db) × (w'.now ≡ w.now) × (w'.random ≡ w.random) × (w'.drawn ≡ w.drawn)
unfolding find_by_token_hash
find_by_token_hash-frame hash w = ground (arith, query-frame w)

pub find_by_token_hash-eq_ok :
    (hash : String) (w : World) (o : Option RefreshTokenRecord) {w' : World}
    → find_by_token_hash hash w ≡ (ok o, w')
    → find (has_hash hash) w.db.refresh_tokens ≡ o
unfolding find_by_token_hash
find_by_token_hash-eq_ok hash w o h = ground (arith, query-frame w)

pub find_user_by_id-frame :
    (id : String) (w : World)
    → let w' = (find_user_by_id id w).1 in
      (w'.db ≡ w.db) × (w'.now ≡ w.now) × (w'.random ≡ w.random) × (w'.drawn ≡ w.drawn)
unfolding find_user_by_id
find_user_by_id-frame id w = ground (arith, query-frame w)

pub save_token-eq_ok :
    (row : RefreshTokenRecord) (w : World) {w' : World}
    → save_token row w ≡ (ok tt, w')
    → w'.db.refresh_tokens ≡ upsert_token row w.db.refresh_tokens
unfolding save_token
save_token-eq_ok row w h = ground (arith, query-frame w)

-- The rows by hash, under the two saves of a rotation.
find-append :
    (test : RefreshTokenRecord → Bool) (t new : RefreshTokenRecord) (rows : List RefreshTokenRecord)
    → find test rows ≡ some t
    → find test (rows ++ new ∷ []) ≡ some t
find-append test t new [] f = cc
find-append test t new (r ∷ rows) f = ground (arith, find-append test t new rows)

any-of_find_id :
    (hash : String) (t : RefreshTokenRecord) (rows : List RefreshTokenRecord)
    → find (has_hash hash) rows ≡ some t
    → any (has_token_id t.id) rows ≡ true
any-of_find_id hash t [] f = cc
any-of_find_id hash t (r ∷ rows) f = ground (arith, any-of_find_id hash t rows, eq_refl t.id)

find-hash :
    (hash : String) (t : RefreshTokenRecord) (rows : List RefreshTokenRecord)
    → find (has_hash hash) rows ≡ some t
    → has_hash hash t ≡ true
find-hash hash t [] f = cc
find-hash hash t (r ∷ rows) f = ground (arith, find-hash hash t rows)

any-update_many_id :
    (id : String) (row : RefreshTokenRecord) (rows : List RefreshTokenRecord)
    → any (has_token_id id) rows ≡ false
    → (row.id == id) ≡ false
    → any (has_token_id id) (update_many (has_token_id row.id) row rows) ≡ false
any-update_many_id id row [] a n = refl
any-update_many_id id row (r ∷ rows) a n = ground (arith, any-update_many_id id row rows)

any-ne :
    (hash id : String) (t : RefreshTokenRecord) (rows : List RefreshTokenRecord)
    → find (has_hash hash) rows ≡ some t
    → any (has_token_id id) rows ≡ false
    → (t.id == id) ≡ false
any-ne hash id t [] f a = cc
any-ne hash id t (r ∷ rows) f a = ground (arith, any-ne hash id t rows)

pub saves-find :
    (hash : String) (t done new : RefreshTokenRecord) (rows : List RefreshTokenRecord)
    → find (has_hash hash) rows ≡ some t
    → done.id ≡ t.id
    → done.token_hash ≡ t.token_hash
    → any (has_token_id new.id) rows ≡ false
    → find (has_hash hash) (upsert_token new (upsert_token done rows)) ≡ some done
saves-find hash t done new rows f i h fresh =
    let there = any-of_find_id hash t rows f in
    let fits = find-hash hash t rows f in
    let ne = any-ne hash new.id t rows f fresh in
    let replaced =
      find-update_many_fitting (has_token_id done.id) (has_hash hash) t done rows
        (ap (λ x. x == hash) h ∙ fits) f (ap (λ x. t.id == x) i ∙ eq_refl t.id) in
    let absent = any-update_many_id new.id done rows fresh (ap (λ x. x == new.id) i ∙ ne) in
    let kept =
      find-append (has_hash hash) done new (update_many (has_token_id done.id) done rows)
        replaced in
    let there' : any (has_token_id done.id) rows ≡ true =
      ap (λ x. any (has_token_id x) rows) i ∙ there in
    ground arith

pub find_by_token_hash-eq_err :
    (hash : String) (w : World) (e : Error)
    → (find_by_token_hash hash w).0 ≡ err e
    → (m : String) × (e ≡ failure m)
unfolding find_by_token_hash
find_by_token_hash-eq_err hash w e h = elim (Result-cases (query w).0) [
  | inl (_, f) ↦ absurd (ground arith)
  | inr (x, f) ↦ let (m, g) = query-eq_err w x f in (m, ground arith)
]

pub revoke_where-eq_err :
    (test : RefreshTokenRecord → Bool) (w : World) (e : Error)
    → (revoke_where test w).0 ≡ err e
    → (m : String) × (e ≡ failure m)
unfolding revoke_where
revoke_where-eq_err test w e h = elim (Result-cases (query w).0) [
  | inl (_, f) ↦ absurd (ground arith)
  | inr (x, f) ↦ let (m, g) = query-eq_err w x f in (m, ground arith)
]
