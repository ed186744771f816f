-- ===== src/Idempotency/Rows.antt =====
-- The rows of one key, under the calls of the client.
use kudi_ai.Common.{◌≡◌, ◌≢◌, refl, arith, Bool, true, false, none, some, List, [], ◌∷◌, ◌++◌}
use kudi_ai.Database.Tables.{find, update_each, delete_many, count, any}

module _ {ℓ} {R : Type ℓ} where
  pub any-of_find :
      (test : R → Bool) (r : R) (rs : List R) → find test rs ≡ some r → any test rs ≡ true
  any-of_find test r [] f = cc
  any-of_find test r (s ∷ rs) f = ground (arith, any-of_find test r rs)

  pub find-of_any : (test : R → Bool) (rs : List R) → any test rs ≡ true → find test rs ≢ none
  find-of_any test [] a = cc
  find-of_any test (s ∷ rs) a = ground (arith, find-of_any test rs)

  find-append_new :
      (test : R → Bool) (r : R) (rs : List R)
      → any test rs ≡ false
      → test r ≡ true
      → find test (rs ++ r ∷ []) ≡ some r
  find-append_new test r [] a t = ground arith
  find-append_new test r (s ∷ rs) a t = ground (arith, find-append_new test r rs)

  pub find-delete_many : (test : R → Bool) (rs : List R) → find test (delete_many test rs) ≡ none
  find-delete_many test [] = refl
  find-delete_many test (r ∷ rs) = ground (arith, find-delete_many test rs)

  -- The update of rows that keeps the test, on the row that is found.
  pub find-update_each :
      (test key : R → Bool) (change : R → R) (r : R) (rs : List R)
      → ((s : R) → key (change s) ≡ key s)
      → find key rs ≡ some r
      → test r ≡ true
      → find key (update_each test change rs) ≡ some (change r)
  find-update_each test key change r [] k f t = cc
  find-update_each test key change r (s ∷ rs) k f t =
      ground (arith, k s, find-update_each test key change r rs k)

  pub count_of_any : (test : R → Bool) (rs : List R) → any test rs ≡ true → count test rs ≢ 0
  count_of_any test [] a = cc
  count_of_any test (r ∷ rs) a = ground (arith, count_of_any test rs)
