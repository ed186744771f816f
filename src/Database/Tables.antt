-- ===== src/Database/Tables.antt =====
-- The operations on the rows of a table.
use kudi_ai.Common.{
  ◌≡◌, ◌≢◌, refl, ℕ, suc, arith, Bool, true, false, ◌||◌, Option, none, some, List, [], ◌∷◌,
  if◌then◌else◌,
}

module _ {ℓ} {R : Type ℓ} where
  -- `findUnique`, `findFirst`
  abbrev pub find : (R → Bool) → List R → Option R
  find test [] = none
  find test (r ∷ rs) = if test r then some r else find test rs

  -- `findFirst` in descending order
  abbrev pub find_last : (R → Bool) → List R → Option R
  find_last test [] = none
  find_last test (r ∷ rs) = elim (find_last test rs) [
    | some s ↦ some s
    | none ↦ if test r then some r else none
  ]

  -- `updateMany`, with the row that it writes
  abbrev pub update_many : (R → Bool) → R → List R → List R
  update_many test new [] = []
  update_many test new (r ∷ rs) = (if test r then new else r) ∷ update_many test new rs

  -- `update`, `updateMany` with data that keep the row's other columns
  abbrev pub update_each : (R → Bool) → (R → R) → List R → List R
  update_each test change [] = []
  update_each test change (r ∷ rs) = (if test r then change r else r) ∷ update_each test change rs

  -- `findMany`, in the order of the table
  abbrev pub select : (R → Bool) → List R → List R
  select test [] = []
  select test (r ∷ rs) = let rest = select test rs in if test r then r ∷ rest else rest

  -- `deleteMany`
  abbrev pub delete_many : (R → Bool) → List R → List R
  delete_many test [] = []
  delete_many test (r ∷ rs) = let rest = delete_many test rs in if test r then rest else r ∷ rest

  -- `(updateMany …).count`, `count`
  abbrev pub count : (R → Bool) → List R → ℕ
  count test [] = 0
  count test (r ∷ rs) = if test r then suc (count test rs) else count test rs

  abbrev pub any : (R → Bool) → List R → Bool
  any test [] = false
  any test (r ∷ rs) = test r || any test rs

  -- Rows that no longer fit after the update are all replaced.
  pub count-update_many :
      (test test' : R → Bool) (new : R) (rs : List R)
      → test' new ≡ false
      → ((r : R) → test' r ≡ true → test r ≡ true)
      → count test' (update_many test new rs) ≡ 0
  count-update_many test test' new [] h i = refl
  count-update_many test test' new (r ∷ rs) h i =
      ground (arith, i r, count-update_many test test' new rs h i)

  pub update_many_none :
      (test : R → Bool) (new : R) (rs : List R) → count test rs ≡ 0 → update_many test new rs ≡ rs
  update_many_none test new [] c = refl
  update_many_none test new (r ∷ rs) c = ground (arith, update_many_none test new rs)

  -- A row that the update replaces is found again in its new form.
  pub find-update_many :
      (test key : R → Bool) (old new : R) (rs : List R)
      → key new ≡ true
      → ((r : R) → test r ≡ true → key r ≡ true)
      → find key rs ≡ some old
      → test old ≡ true
      → find key (update_many test new rs) ≡ some new
  find-update_many test key old new [] k i f t = cc
  find-update_many test key old new (r ∷ rs) k i f t =
      ground (arith, i r, find-update_many test key old new rs k i)

  -- The same without a condition on the other rows, which an update can only make fit.
  pub find-update_many_fitting :
      (test key : R → Bool) (old new : R) (rs : List R)
      → key new ≡ true
      → find key rs ≡ some old
      → test old ≡ true
      → find key (update_many test new rs) ≡ some new
  find-update_many_fitting test key old new [] k f t = cc
  find-update_many_fitting test key old new (r ∷ rs) k f t =
      ground (arith, find-update_many_fitting test key old new rs k)

  -- The update is not seen by a search for other rows.
  pub find-update_many_ne :
      (test key : R → Bool) (new : R) (rs : List R)
      → key new ≡ false
      → ((r : R) → test r ≡ true → key r ≡ false)
      → find key (update_many test new rs) ≡ find key rs
  find-update_many_ne test key new [] k i = refl
  find-update_many_ne test key new (r ∷ rs) k i =
      ground (arith, i r, find-update_many_ne test key new rs k i)

  -- The row that is found for a key fits the test, so it is counted.
  pub count_of_find :
      (test key : R → Bool) (r : R) (rs : List R)
      → find key rs ≡ some r
      → test r ≡ true
      → count test rs ≢ 0
  count_of_find test key r [] f t = cc
  count_of_find test key r (s ∷ rs) f t = ground (arith, count_of_find test key r rs)

  pub find-fits : (key : R → Bool) (rs : List R) {r : R} → find key rs ≡ some r → key r ≡ true
  find-fits key [] f = cc
  find-fits key (s ∷ rs) {r} f = ground (arith, find-fits key rs {r = r})
