-- ===== src/Accounts/Commands/Tests.antt =====
-- A debit and a credit by their handlers.
use kudi_ai.Common.{◌≡◌, refl, arith, codes, [], ◌∷◌, ◌++◌}
use kudi_ai.Common.Int.{◌≤ℤ◌, ◌+ℤ◌, ◌-ℤ◌}
use kudi_ai.Shared.Enums.{ngn, active, savings}
use kudi_ai.Shared.Errors.{ok, err, insufficient_funds}
use kudi_ai.Shared.Events.{account_debited, account_credited}
use kudi_ai.Shared.Money.{Money, from_decimal_string}
use kudi_ai.Shared.Money.Decimal.{matches_decimal, before_dot, after_dot, pad_end, parse_digits}
use kudi_ai.Database.{AccountRecord, World, query, publish_all}
use kudi_ai.Database.Samples.{naira, two_accounts}
use kudi_ai.Compliance.Limits.{resolve_tier, find_by_tier, get_default_kyc_tier_limits}
use kudi_ai.Accounts.Account.{Account, debit, credit, reconstitute, pull_domain_events}
use kudi_ai.Accounts.Account.Laws.{debited, credited}
use kudi_ai.Accounts.Mapper.{matches_nuban, to_domain}
use kudi_ai.Accounts.MaxBalance.{assert_within_limit, check_max_balance}
use kudi_ai.Accounts.Repository.{find_by_id, save}
use kudi_ai.Accounts.Commands.{get_account, conclude, with_account, debit_account, credit_account}
use kudi_ai.Accounts.Commands.Effects.{
  IsChanged, debit_account-IsChanged, credit_account-IsChanged, account_commands-refused,
}

abbrev ada : Account
ada = reconstitute (record {
  id = "a";
  user_id = "ada";
  account_number = "0000000001";
  account_type = savings;
  currency = ngn;
  balance = naira 100000;
  status = active;
  version = 3;
  created_at = 1;
  updated_at = 1;
})

gets_ada : get_account "a" two_accounts ≡ (ok ada, two_accounts)
unfolding get_account find_by_id to_domain matches_nuban
gets_ada = refl

parses_amount : from_decimal_string (codes "5.00") ngn ≡ ok (naira 500)
unfolding from_decimal_string matches_decimal before_dot after_dot pad_end parse_digits
parses_amount = refl

debits_ada : debit 7 (naira 500) "R" ada ≡ ok (debited 7 (naira 500) "R" ada)
unfolding debit
debits_ada = refl

credits_ada : credit 7 (naira 500) "R" ada ≡ ok (credited 7 (naira 500) "R" ada)
unfolding credit
credits_ada = refl

within : assert_within_limit ada (naira 500) two_accounts ≡ (ok tt, two_accounts)
unfolding assert_within_limit resolve_tier find_by_tier get_default_kyc_tier_limits matches_decimal
    before_dot after_dot pad_end parse_digits check_max_balance query ◌+ℤ◌
within = refl

abbrev saved : Account → World
saved a = (save a two_accounts).1

saves_debited :
    save (debited 7 (naira 500) "R" ada) two_accounts
    ≡ (ok tt, saved (debited 7 (naira 500) "R" ada))
unfolding save
saves_debited = refl

saves_credited :
    save (credited 7 (naira 500) "R" ada) two_accounts
    ≡ (ok tt, saved (credited 7 (naira 500) "R" ada))
unfolding save
saves_credited = refl

abbrev after : Account → World
after a = record (saved a) { published = (saved a).published ++ a.domain_events }

runs_debit : debit_account "a" (codes "5.00") ngn "R" two_accounts ≡ (
  ok (reconstitute (debited 7 (naira 500) "R" ada).props),
  after (debited 7 (naira 500) "R" ada),
)
unfolding debit_account with_account conclude publish_all pull_domain_events
runs_debit = ground (arith, gets_ada, parses_amount, debits_ada, saves_debited)

runs_credit : credit_account "a" (codes "5.00") ngn "R" two_accounts ≡ (
  ok (reconstitute (credited 7 (naira 500) "R" ada).props),
  after (credited 7 (naira 500) "R" ada),
)
unfolding credit_account with_account conclude publish_all pull_domain_events
runs_credit = ground (arith, gets_ada, parses_amount, within, credits_ada, saves_credited)

debit_account-IsChanged_example :
    (old : AccountRecord) × (m : Money) × (from_decimal_string (codes "5.00") ngn ≡ ok m)
    × (m.currency ≡ old.currency)
    × (m.minor_units ≤ℤ old.balance)
    × IsChanged "a" 7 old
        (old.balance -ℤ m.minor_units)
        (account_debited old.id m.minor_units m.currency "R" (old.balance -ℤ m.minor_units) ∷ [])
        two_accounts
        (after (debited 7 (naira 500) "R" ada))
debit_account-IsChanged_example =
    debit_account-IsChanged "a" (codes "5.00") ngn "R" two_accounts
      (reconstitute (debited 7 (naira 500) "R" ada).props) runs_debit

credit_account-IsChanged_example :
    (old : AccountRecord) × (m : Money) × (from_decimal_string (codes "5.00") ngn ≡ ok m)
    × (m.currency ≡ old.currency)
    × IsChanged "a" 7 old
        (old.balance +ℤ m.minor_units)
        (account_credited old.id m.minor_units m.currency "R" (old.balance +ℤ m.minor_units) ∷ [])
        two_accounts
        (after (credited 7 (naira 500) "R" ada))
credit_account-IsChanged_example =
    credit_account-IsChanged "a" (codes "5.00") ngn "R" two_accounts
      (reconstitute (credited 7 (naira 500) "R" ada).props) runs_credit

account_commands-refused_example :
    ((debit_account "b" (codes "99.00") ngn "R" two_accounts).0 ≡ err (insufficient_funds "b")
      → ((debit_account "b" (codes "99.00") ngn "R" two_accounts).1.db ≡ two_accounts.db)
        × ((debit_account "b" (codes "99.00") ngn "R" two_accounts).1.published
            ≡ two_accounts.published))
    × ((credit_account "b" (codes "99.00") ngn "R" two_accounts).0 ≡ err (insufficient_funds "b")
        → ((credit_account "b" (codes "99.00") ngn "R" two_accounts).1.db ≡ two_accounts.db)
          × ((credit_account "b" (codes "99.00") ngn "R" two_accounts).1.published
              ≡ two_accounts.published))
account_commands-refused_example =
    account_commands-refused "b" (codes "99.00") ngn "R" two_accounts (insufficient_funds "b")
