-- ===== src/Accounts/Account/Laws.antt =====
-- What `credit` and `debit` do where they go through.
use kudi_ai.Common.{◌≡◌, String, ℕ, ◌+◌, arith}
use kudi_ai.Common.Int.{int_laws, ◌+ℤ◌, ◌-ℤ◌, ◌≤ℤ◌}
use kudi_ai.Shared.Enums.{active}
use kudi_ai.Shared.Errors.{ok}
use kudi_ai.Shared.Events.{account_credited, account_debited}
use kudi_ai.Shared.Money.{Money}
use kudi_ai.Shared.Money.Laws.{IsAmount, +ℤ_-ℤ}
use kudi_ai.Accounts.Account.{Account, credit, debit, add_domain_event, touch, set_balance}

-- The account after a credit, and after a debit, that went through.
abbrev pub credited : ℕ → Money → String → Account → Account
credited now m r a =
    let balance : Money = record a.balance {
      minor_units = a.balance.minor_units +ℤ m.minor_units;
    } in
    add_domain_event (account_credited a.id m.minor_units m.currency r balance.minor_units)
      (touch now (set_balance balance a))

abbrev pub debited : ℕ → Money → String → Account → Account
debited now m r a =
    let balance : Money = record a.balance {
      minor_units = a.balance.minor_units -ℤ m.minor_units;
    } in
    add_domain_event (account_debited a.id m.minor_units m.currency r balance.minor_units)
      (touch now (set_balance balance a))

pub credit-eq_ok :
    (now : ℕ) (m : Money) (r : String) (a b : Account)
    → credit now m r a ≡ ok b
    → (a.status ≡ active) × (m.currency ≡ a.currency) × (b ≡ credited now m r a)
unfolding credit
credit-eq_ok now m r a b h = (ground arith, ground arith, ground arith)

pub debit-eq_ok :
    (now : ℕ) (m : Money) (r : String) (a b : Account)
    → debit now m r a ≡ ok b
    → (a.status ≡ active)
      × (m.currency ≡ a.currency)
      × (m.minor_units ≤ℤ a.balance.minor_units)
      × (b ≡ debited now m r a)
unfolding debit
debit-eq_ok now m r a b h = (ground arith, ground arith, ground arith, ground arith)

-- On an account whose balance is not negative and in its own currency: after a credit that went
-- through, a debit of the same amount at any time and for any reason goes through, and gives the
-- balance back, two versions later.
pub debit-credit :
    (now later : ℕ) (m : Money) (r r' : String) (a b : Account)
    → a.balance.currency ≡ a.currency
    → IsAmount a.balance
    → credit now m r a ≡ ok b
    → (c : Account) × (debit later m r' b ≡ ok c)
      × (c.balance ≡ a.balance)
      × (c.version ≡ a.version + 2)
      × (c.status ≡ active)
unfolding debit
debit-credit now later m r r' a b e p h =
    let (s, k, same) = credit-eq_ok now m r a b h in
    let covered : m.minor_units ≤ℤ a.balance.minor_units +ℤ m.minor_units = omega int_laws in
    let back = +ℤ_-ℤ a.balance.minor_units m.minor_units in
    (debited later m r' b, ground arith, ground arith, ground arith, ground arith)
