-- ===== src/Ledger/Balance.antt =====
-- The check of `assertBalanced` against the sum that it stands for, and the invariant of the book:
-- debits equal credits in each currency.
use kudi_ai.Common.{
  ◌≡◌, refl, ap, ◌↔◌, arith, Bool, true, false, ◌||◌, List, [], ◌∷◌, if◌then◌else◌, inl, inr,
  Bool-cases,
}
use kudi_ai.Common.Int.{ℤ, pos, pos_part, neg_part, ◌+ℤ◌, eq_of_eqb_ℤ, int_laws}
use kudi_ai.Shared.Enums.{Currency, same_currency, same_currency_refl, eq_of_same_currency}
use kudi_ai.Database.{LedgerEntry}
use kudi_ai.Ledger.{PostingLeg, NetMap, add_net, signed_debit, net_by_currency, all_zero}

-- Debits less credits in one currency, of legs and of entries.
abbrev pub in_currency : Currency → Currency → ℤ → ℤ
in_currency c d x = if same_currency d c then x else pos 0

abbrev pub net : Currency → List PostingLeg → ℤ
net c [] = pos 0
net c (l ∷ ls) =
    in_currency c l.amount.currency (signed_debit l.direction l.amount.minor_units) +ℤ net c ls

abbrev pub net_entries : Currency → List LedgerEntry → ℤ
net_entries c [] = pos 0
net_entries c (e ∷ es) =
    in_currency c e.currency (signed_debit e.direction e.amount_minor_units) +ℤ net_entries c es

-- Every currency nets to zero.
abbrev pub IsBalanced : List PostingLeg → Type 0
IsBalanced ls = (c : Currency) → net c ls ≡ pos 0

abbrev pub IsBalancedBook : List LedgerEntry → Type 0
IsBalancedBook es = (c : Currency) → net_entries c es ≡ pos 0

-- `m.get(c) ?? 0n`
abbrev get : Currency → NetMap → ℤ
get c [] = pos 0
get c ((d, x) ∷ m) = if same_currency d c then x else get c m

other_currency :
    (c d e : Currency)
    → same_currency e d ≡ false
    → same_currency e c ≡ true
    → same_currency d c ≡ false
other_currency c d e h k = ground arith

get-add_net :
    (c d : Currency) (x : ℤ) (m : NetMap) → get c (add_net d x m) ≡ get c m +ℤ in_currency c d x
unfolding add_net
get-add_net c d x [] = elim (Bool-cases (same_currency d c)) [
  | inl same ↦ rw same refl
  | inr other ↦ rw other (omega int_laws)
]
get-add_net c d x ((e, y) ∷ m) = elim (Bool-cases (same_currency e d)) [
  | inl same ↦
      let e' = eq_of_same_currency e d same in
      rw same (
        rw e' (elim (Bool-cases (same_currency d c)) [
          | inl here ↦ rw here refl
          | inr there ↦ rw there (omega int_laws)
        ]))
  | inr other ↦ rw other (elim (Bool-cases (same_currency e c)) [
    | inl here ↦ rw (here, other_currency c d e other here) (omega int_laws)
    | inr there ↦ rw there (get-add_net c d x m)
  ])
]

get-net_by_currency :
    (c : Currency) (m : NetMap) (ls : List PostingLeg)
    → get c (net_by_currency m ls) ≡ get c m +ℤ net c ls
unfolding net_by_currency
get-net_by_currency c m [] = omega int_laws
get-net_by_currency c m (l ∷ ls) =
    let x = signed_debit l.direction l.amount.minor_units in
    rw
      (
        get-net_by_currency c (add_net l.amount.currency x m) ls,
        get-add_net c l.amount.currency x m,
      )
      (omega int_laws)

all_zero-get : (c : Currency) (m : NetMap) → all_zero m ≡ true → get c m ≡ pos 0
unfolding all_zero
all_zero-get c [] h = refl
all_zero-get c ((d, x) ∷ m) h = ground (arith, all_zero-get c m, eq_of_eqb_ℤ x (pos 0))

-- Each currency stands in the map once.
abbrev has : Currency → NetMap → Bool
has c [] = false
has c ((d, x) ∷ m) = same_currency d c || has c m

abbrev IsKeyed : NetMap → Type 0
IsKeyed [] = Unit
IsKeyed ((d, x) ∷ m) = (has d m ≡ false) × IsKeyed m

has-add_net :
    (c d : Currency) (x : ℤ) (m : NetMap)
    → has c m ≡ false
    → same_currency d c ≡ false
    → has c (add_net d x m) ≡ false
unfolding add_net
has-add_net c d x [] h n = ground arith
has-add_net c d x ((e, y) ∷ m) h n = ground (arith, has-add_net c d x m)

add_net-IsKeyed : (d : Currency) (x : ℤ) (m : NetMap) → IsKeyed m → IsKeyed (add_net d x m)
unfolding add_net
add_net-IsKeyed d x [] k = ground arith
add_net-IsKeyed d x ((e, y) ∷ m) k =
    ground (arith, add_net-IsKeyed d x m k.1, has-add_net e d x m, swap_same d e)
  where
    swap_same : (c d : Currency) → same_currency c d ≡ same_currency d c
    swap_same c d = ground arith

net_by_currency-IsKeyed :
    (m : NetMap) (ls : List PostingLeg) → IsKeyed m → IsKeyed (net_by_currency m ls)
unfolding net_by_currency
net_by_currency-IsKeyed m [] k = k
net_by_currency-IsKeyed m (l ∷ ls) k =
    let x = signed_debit l.direction l.amount.minor_units in
    net_by_currency-IsKeyed (add_net l.amount.currency x m) ls
      (add_net-IsKeyed l.amount.currency x m k)

-- A currency that the rest of a keyed map does not have is 0 in the rest; one that it has is not d.
get-has : (c : Currency) (m : NetMap) → has c m ≡ false → get c m ≡ pos 0
get-has c [] h = refl
get-has c ((d, x) ∷ m) h = ground (arith, get-has c m)

get_of_tail :
    (c d : Currency) (x : ℤ) (m : NetMap)
    → has d m ≡ false
    → get c ((d, x) ∷ m) ≡ pos 0
    → get c m ≡ pos 0
get_of_tail c d x m k h = elim (Bool-cases (same_currency d c)) [
  | inl same ↦ get-has c m (rw (eq_of_same_currency d c same) at k)
  | inr other ↦ rw other at h
]

all_zero-of_get : (m : NetMap) → IsKeyed m → ((c : Currency) → get c m ≡ pos 0) → all_zero m ≡ true
unfolding all_zero
all_zero-of_get [] k h = refl
all_zero-of_get ((d, x) ∷ m) k h =
    let zero : x ≡ pos 0 = rw (same_currency_refl d) at (h d) in
    rw (zero, all_zero-of_get m k.1 (λ c. get_of_tail c d x m k.0 (h c))) refl

-- The check of `assertBalanced` passes exactly when debits equal credits in every currency.
pub all_zero-net_by_currency_iff :
    (ls : List PostingLeg) → (all_zero (net_by_currency [] ls) ≡ true) ↔ IsBalanced ls
all_zero-net_by_currency_iff ls = (
  λ h c.
      let e = get-net_by_currency c [] ls in
      let z = all_zero-get c (net_by_currency [] ls) h in
      omega (int_laws, ap pos_part e, ap neg_part e, ap pos_part z, ap neg_part z),
  λ b.
      all_zero-of_get (net_by_currency [] ls) (net_by_currency-IsKeyed [] ls tt)
        (λ c. rw (get-net_by_currency c [] ls, b c) (omega int_laws)),
)
