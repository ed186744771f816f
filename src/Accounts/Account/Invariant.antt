-- ===== src/Accounts/Account/Invariant.antt =====
-- The invariant of an account, and that each method of the aggregate keeps it.
use kudi_ai.Common.{◌≡◌, String, ℕ, arith}
use kudi_ai.Common.Int.{pos, ◌≤ℤ◌, +ℤ_parts, -ℤ_parts}
use kudi_ai.Shared.Enums.{Currency, AccountType, closed}
use kudi_ai.Shared.Errors.{ok}
use kudi_ai.Shared.Money.{Money}
use kudi_ai.Shared.Money.Laws.{IsAmount}
use kudi_ai.Accounts.Account.Laws.{credit-eq_ok, debit-eq_ok}
use kudi_ai.Accounts.Account.{
  Account, open_account, activate, credit, debit, freeze, unfreeze, close,
}

-- The balance is in the account's currency and not negative, and a closed account is empty.
pub record IsValid (a : Account) : Type 0 where
  pub one_currency : a.balance.currency ≡ a.currency
  pub nonneg : pos 0 ≤ℤ a.balance.minor_units
  pub closed_empty : a.status ≡ closed → a.balance.minor_units ≡ pos 0

pub open_account-IsValid :
    (id : String) (now : ℕ) (user number : String) (t : AccountType) (c : Currency)
    → IsValid (open_account id now user number t c)
unfolding open_account
open_account-IsValid id now user number t c = ground arith

pub activate-IsValid : (now : ℕ) (a : Account) → IsValid a → IsValid (activate now a)
unfolding activate
activate-IsValid now a v = ground arith

pub freeze-IsValid : (now : ℕ) (r : String) (a : Account) → IsValid a → IsValid (freeze now r a)
unfolding freeze
freeze-IsValid now r a v = ground arith

pub unfreeze-IsValid : (now : ℕ) (a : Account) → IsValid a → IsValid (unfreeze now a)
unfolding unfreeze
unfreeze-IsValid now a v = ground arith

pub close-IsValid : (now : ℕ) (a b : Account) → IsValid a → close now a ≡ ok b → IsValid b
unfolding close
close-IsValid now a b v h = ground arith

pub credit-IsValid :
    (now : ℕ) (m : Money) (r : String) (a b : Account)
    → IsAmount m
    → IsValid a
    → credit now m r a ≡ ok b
    → IsValid b
credit-IsValid now m r a b p v h =
    let (s, c, e) = credit-eq_ok now m r a b h in
    ground (arith, +ℤ_parts a.balance.minor_units m.minor_units)

pub debit-IsValid :
    (now : ℕ) (m : Money) (r : String) (a b : Account)
    → IsValid a
    → debit now m r a ≡ ok b
    → IsValid b
debit-IsValid now m r a b v h =
    let (s, c, le, e) = debit-eq_ok now m r a b h in
    ground (arith, -ℤ_parts a.balance.minor_units m.minor_units)
