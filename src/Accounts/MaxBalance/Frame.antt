-- ===== src/Accounts/MaxBalance/Frame.antt =====
-- The guard reads, and changes nothing.
use kudi_ai.Common.{◌≡◌, refl, arith, String, Option, none, some, inl, inr}
use kudi_ai.Shared.Enums.{Currency, KycTier}
use kudi_ai.Shared.Errors.{Result-cases}
use kudi_ai.Shared.Money.{Money}
use kudi_ai.Database.{World, query-frame}
use kudi_ai.Compliance.Limits.{find_by_tier, resolve_tier}
use kudi_ai.Accounts.Account.{Account}
use kudi_ai.Accounts.MaxBalance.{assert_within_limit, check_max_balance}

-- The parts of the world that reading leaves alone.
abbrev Same : World → World → Type 0
Same w w' = (w'.db ≡ w.db) × (w'.published ≡ w.published) × (w'.now ≡ w.now)

resolve_tier-Same : (u : String) (w : World) → Same w (resolve_tier u w).1
unfolding resolve_tier
resolve_tier-Same u w = ground (arith, query-frame w)

find_by_tier-Same : (t : KycTier) (c : Currency) (w : World) → Same w (find_by_tier t c w).1
unfolding find_by_tier
find_by_tier-Same t c w = ground (arith, query-frame w)

check_max_balance-Same :
    (t : KycTier) (o : Option Money) (b m : Money) (w : World) → (check_max_balance t o b m w).1 ≡ w
unfolding check_max_balance
check_max_balance-Same t none b m w = refl
check_max_balance-Same t (some l) b m w = ground arith

pub assert_within_limit-Same :
    (a : Account) (m : Money) (w : World) → Same w (assert_within_limit a m w).1
unfolding assert_within_limit
assert_within_limit-Same a m w =
    let w₁ = (resolve_tier a.user_id w).1 in
    elim (Result-cases (resolve_tier a.user_id w).0) [
      | inr (x, e) ↦ ground (arith, resolve_tier-Same a.user_id w)
      | inl (t, e) ↦
          let w₂ = (find_by_tier t a.currency w₁).1 in
          elim (Result-cases (find_by_tier t a.currency w₁).0) [
            | inr (x, f) ↦
                ground (arith, resolve_tier-Same a.user_id w, find_by_tier-Same t a.currency w₁)
            | inl (l, f) ↦ ground (
              arith,
              resolve_tier-Same a.user_id w,
              find_by_tier-Same t a.currency w₁,
              check_max_balance-Same t l.max_balance a.balance m w₂,
            )
          ]
    ]
