-- ===== src/Transfers/InitiateInternal/Tests.antt =====
-- A transfer by the handler.
use kudi_ai.Common.{◌≡◌, refl, arith, codes, ◌++◌}
use kudi_ai.Common.Int.{◌+ℤ◌}
use kudi_ai.Shared.Enums.{ngn, active, savings, successful}
use kudi_ai.Shared.Errors.{ok}
use kudi_ai.Shared.Money.{
  Money, from_decimal_string, is_greater_than_or_equal_to, from_minor_units, add,
}
use kudi_ai.Shared.Money.Decimal.{matches_decimal, before_dot, after_dot, pad_end, parse_digits}
use kudi_ai.Database.{World, query, publish_all}
use kudi_ai.Database.Samples.{naira, two_accounts}
use kudi_ai.Compliance.Limits.{resolve_tier, find_by_tier, get_default_kyc_tier_limits}
use kudi_ai.Accounts.Account.{Account, reconstitute}
use kudi_ai.Accounts.Mapper.{matches_nuban, to_domain}
use kudi_ai.Accounts.Repository.{find_by_id}
use kudi_ai.Accounts.Commands.{get_account}
use kudi_ai.Transfers.Repository.{sum_source_amount_since}
use kudi_ai.Transfers.Fees.{calculate_fee}
use kudi_ai.Transfers.Limits.{check_daily, assert_within_limits}
use kudi_ai.Transfers.Executor.Books.{IsTransferred}
use kudi_ai.Transfers.Executor.Tests.{returned, events, after, pays}
use kudi_ai.Transfers.InitiateInternal.{Command, params_of, price, prepare, do_execute}
use kudi_ai.Transfers.InitiateInternal.Effects.{IsPrepared, do_execute-IsTransferred}

abbrev pub ada : Account
ada = reconstitute (record {
  id = "a";
  user_id = "ada";
  account_number = "0000000001";
  account_type = savings;
  currency = ngn;
  balance = naira 100000;
  status = active;
  version = 3;
  created_at = 1;
  updated_at = 1;
})

abbrev command : Command
command = record {
  initiator_user_id = "ada";
  source_account_id = "a";
  destination_account_id = "b";
  amount = codes "200.00";
  narration = "rent";
}

pub gets_ada : get_account "a" two_accounts ≡ (ok ada, two_accounts)
unfolding get_account find_by_id to_domain matches_nuban
gets_ada = refl

pub parses_amount : from_decimal_string (codes "200.00") ngn ≡ ok (naira 20000)
unfolding from_decimal_string matches_decimal before_dot after_dot pad_end parse_digits
parses_amount = refl

pub allows : assert_within_limits "ada" "a" (naira 20000) two_accounts ≡ (ok tt, two_accounts)
unfolding assert_within_limits check_daily resolve_tier find_by_tier get_default_kyc_tier_limits
    matches_decimal before_dot after_dot pad_end parse_digits sum_source_amount_since query ◌+ℤ◌
    is_greater_than_or_equal_to from_minor_units add
allows = refl

prepares : prepare command two_accounts ≡ (ok (naira 20000, naira 0), two_accounts)
unfolding prepare price calculate_fee
prepares = ground (arith, gets_ada, parses_amount, allows)

abbrev told : World
told = record after { published = after.published ++ events }

transfers : do_execute command two_accounts ≡ (ok returned, told)
unfolding do_execute publish_all
transfers = ground (arith, prepares, pays)

do_execute-IsTransferred_example :
    (m f : Money) × IsPrepared command two_accounts m f
    × IsTransferred 7 returned.reference (params_of command m f) two_accounts told
    × (returned.status ≡ successful)
do_execute-IsTransferred_example = do_execute-IsTransferred command two_accounts returned transfers
