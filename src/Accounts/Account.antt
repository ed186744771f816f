-- ===== src/Accounts/Account.antt =====
-- modules/accounts/domain/entities/account.entity.ts. A method that changes the aggregate returns
-- the new one; one that may throw returns a `Result`. `new Date()` and `randomUUID()` are
-- arguments; a date is its milliseconds since the epoch, a UUID its text.
pub mod Laws
pub mod Invariant
pub mod History
use kudi_ai.Common.{String, ℕ, ◌+◌, not, Bool, List, [], ◌∷◌, ◌++◌}
use kudi_ai.Shared.Enums.{
  Currency, AccountStatus, AccountType, active, frozen, closed, pending_verification, is_active,
  same_currency,
}
use kudi_ai.Shared.Errors.{
  Result, ok, err, ◌>>=◌, ◌>>◌, throw_if, insufficient_funds, account_not_active,
  account_closure_not_allowed, currency_mismatch,
}
use kudi_ai.Shared.Events.{
  DomainEvent, account_opened, account_activated, account_credited, account_debited, account_frozen,
  account_unfrozen, account_closed,
}
use kudi_ai.Shared.Money.{Money, zero_money, add, subtract, is_greater_than_or_equal_to, is_zero}

pub record AccountProps : Type 0 where
  pub id : String
  pub user_id : String
  pub account_number : String
  pub account_type : AccountType
  pub currency : Currency
  pub balance : Money
  pub status : AccountStatus
  pub version : ℕ
  pub created_at : ℕ
  pub updated_at : ℕ

pub record Account : Type 0 where
  pub props : AccountProps
  pub open props use *
  pub domain_events : List DomainEvent

-- `Account.open`: `id` is the `randomUUID()` of the call.
unfoldable pub open_account :
    (id : String) (now : ℕ) (user_id account_number : String) → AccountType → Currency → Account
open_account id now user_id account_number account_type currency = record {
  props = record {
    id = id;
    user_id = user_id;
    account_number = account_number;
    account_type = account_type;
    currency = currency;
    balance = zero_money currency;
    status = pending_verification;
    version = 0;
    created_at = now;
    updated_at = now;
  };
  domain_events = account_opened id user_id account_number currency account_type ∷ [];
}

abbrev pub reconstitute : AccountProps → Account
reconstitute props = record { props = props; domain_events = [] }

abbrev pub touch : ℕ → Account → Account
touch now a = record a { props = record a.props { version = a.version + 1; updated_at = now } }

abbrev pub add_domain_event : DomainEvent → Account → Account
add_domain_event event a = record a { domain_events = a.domain_events ++ event ∷ [] }

abbrev pub set_status : AccountStatus → Account → Account
set_status status a = record a { props = record a.props { status = status } }

abbrev pub set_balance : Money → Account → Account
set_balance balance a = record a { props = record a.props { balance = balance } }

unfoldable pub activate : ℕ → Account → Account
activate now a = add_domain_event (account_activated a.id) (touch now (set_status active a))

abbrev pub assert_operable : Account → Result (Unit {0})
assert_operable a = throw_if (not (is_active a.status)) (account_not_active a.id a.status)

abbrev pub assert_currency_matches : Account → Money → Result (Unit {0})
assert_currency_matches a amount =
    throw_if (not (same_currency amount.currency a.currency))
      (currency_mismatch a.currency amount.currency)

unfoldable pub credit : ℕ → Money → String → Account → Result Account
unfolding add
credit now amount reference a = do
  assert_operable a
  assert_currency_matches a amount
  balance ← add a.balance amount
  ok (
      add_domain_event
        (account_credited a.id amount.minor_units amount.currency reference balance.minor_units)
        (touch now (set_balance balance a)))

unfoldable pub debit : ℕ → Money → String → Account → Result Account
unfolding subtract is_greater_than_or_equal_to
debit now amount reference a = do
  assert_operable a
  assert_currency_matches a amount
  enough ← is_greater_than_or_equal_to a.balance amount
  throw_if (not enough) (insufficient_funds a.id)
  balance ← subtract a.balance amount
  ok (
      add_domain_event
        (account_debited a.id amount.minor_units amount.currency reference balance.minor_units)
        (touch now (set_balance balance a)))

unfoldable pub freeze : ℕ → String → Account → Account
freeze now reason a =
    add_domain_event (account_frozen a.id reason) (touch now (set_status frozen a))

unfoldable pub unfreeze : ℕ → Account → Account
unfreeze now a = add_domain_event (account_unfrozen a.id) (touch now (set_status active a))

unfoldable pub close : ℕ → Account → Result Account
close now a = do
  throw_if (not (is_zero a.balance))
      (account_closure_not_allowed a.id "balance must be zero to close")
  ok (add_domain_event (account_closed a.id) (touch now (set_status closed a)))

-- The events, and the aggregate without them.
unfoldable pub pull_domain_events : Account → List DomainEvent × Account
pull_domain_events a = (a.domain_events, record a { domain_events = [] })
