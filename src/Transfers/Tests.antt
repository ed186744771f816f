-- ===== src/Transfers/Tests.antt =====
-- Instances of the properties of transfers.
use kudi_ai.Common.{◌≡◌, refl, arith, true}
use kudi_ai.Common.Int.{pos, ◌≤ℤ◌}
use kudi_ai.Shared.Enums.{ngn, internal, external, is_terminal}
use kudi_ai.Shared.Errors.{ok, or_else}
use kudi_ai.Shared.Money.{Money, zero_money, is_greater_than_or_equal_to, from_minor_units, add}
use kudi_ai.Database.Samples.{naira, two_accounts}
use kudi_ai.Transfers.Transfer.{
  Transfer, InternalParams, initiate_internal, mark_successful, reconstitute,
}
use kudi_ai.Transfers.Transfer.Lifecycle.{
  here, next, successful as succeeds, IsSettledOnce, Reach-IsSettledOnce,
}
use kudi_ai.Transfers.Mapper.{
  matches_reference, to_domain, to_persistence, IsStorable, to_domain-to_persistence_transfer,
}
use kudi_ai.Transfers.Fees.{calculate_fee, calculate_fee_schedule}
use kudi_ai.Common.Int.{◌+ℤ◌}
use kudi_ai.Database.{query}
use kudi_ai.Shared.Money.Decimal.{matches_decimal, before_dot, after_dot, pad_end, parse_digits}
use kudi_ai.Compliance.Limits.{TierLimits, resolve_tier, find_by_tier, get_default_kyc_tier_limits}
use kudi_ai.Transfers.Repository.{sum_source_amount_since}
use kudi_ai.Transfers.Limits.{
  check_daily, assert_within_limits, IsAllowed, assert_within_limits-IsAllowed,
}

abbrev rent : InternalParams
rent = record {
  initiator_user_id = "ada";
  source_account_id = "a";
  destination_account_id = "b";
  amount = naira 20000;
  fee = naira 100;
  narration = "rent";
}

abbrev new_transfer : Transfer
new_transfer =
    initiate_internal (record { id = "t"; reference = "KUDI-0123456789ABCDEF"; now = 7 }) rent

abbrev settled : Transfer
settled = or_else new_transfer (mark_successful 8 new_transfer)

settles : mark_successful 8 new_transfer ≡ ok settled
unfolding initiate_internal mark_successful
settles = refl

Reach-IsSettledOnce_example :
    IsSettledOnce new_transfer settled
    × (is_terminal new_transfer.status ≡ true → settled ≡ new_transfer)
Reach-IsSettledOnce_example = Reach-IsSettledOnce (next here (succeeds 8 settles))

new_transfer-IsStorable : IsStorable new_transfer
unfolding initiate_internal matches_reference
new_transfer-IsStorable = record {
  referenced = refl;
  recipient = tt;
  one_currency = refl;
  amount_nonneg = ground arith;
  fee_nonneg = ground arith;
}

to_domain-to_persistence_transfer_example :
    to_domain (to_persistence new_transfer) ≡ ok (reconstitute new_transfer.props)
to_domain-to_persistence_transfer_example =
    to_domain-to_persistence_transfer new_transfer new_transfer-IsStorable

calculate_fee_schedule_example :
    (calculate_fee (naira 500000) internal ≡ ok (zero_money ngn))
    × ((f g : Money) × (calculate_fee (naira 500000) external ≡ ok f)
        × (calculate_fee (naira 500001) external ≡ ok g)
        × (f.currency ≡ ngn)
        × (pos 1000 ≤ℤ f.minor_units)
        × (f.minor_units ≤ℤ g.minor_units)
        × (g.minor_units ≤ℤ pos 5000))
calculate_fee_schedule_example =
    calculate_fee_schedule (naira 500000) (naira 500001) refl (omega arith)

allows : assert_within_limits "ada" "a" (naira 20000) two_accounts ≡ (ok tt, two_accounts)
unfolding assert_within_limits check_daily resolve_tier find_by_tier get_default_kyc_tier_limits
    matches_decimal before_dot after_dot pad_end parse_digits sum_source_amount_since query ◌+ℤ◌
    is_greater_than_or_equal_to from_minor_units add
allows = refl

assert_within_limits-IsAllowed_example :
    (l : TierLimits) × IsAllowed "ada" "a" (naira 20000) two_accounts l
    × (two_accounts.db ≡ two_accounts.db)
assert_within_limits-IsAllowed_example =
    assert_within_limits-IsAllowed "ada" "a" (naira 20000) two_accounts allows
