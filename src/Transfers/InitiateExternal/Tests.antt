-- ===== src/Transfers/InitiateExternal/Tests.antt =====
-- A payout that the provider accepts.
use kudi_ai.Common.{[], ◌∷◌, ◌≡◌, refl, arith, codes, false, none, some, ◌++◌}
use kudi_ai.Common.Int.{pos, ◌+ℤ◌, ◌-ℤ◌, ◌≤ℤ◌}
use kudi_ai.Shared.Enums.{active}
use kudi_ai.Shared.Errors.{ok, or_else}
use kudi_ai.Shared.Money.Decimal.{matches_decimal, parse_digits, before_dot, pad_end, after_dot}
use kudi_ai.Shared.Money.{add, is_greater_than_or_equal_to, subtract}
use kudi_ai.Database.{
  World, query, publish_all, random_text, set_accounts, set_transfers, set_ledger_entries,
}
use kudi_ai.Database.Samples.{naira, two_accounts, account_row}
use kudi_ai.Ledger.{
  Posting, post, assert_balanced, net_by_currency, add_net, all_zero, make_rows, make_row,
  compute_running_balance, create_many,
}
use kudi_ai.Accounts.Account.{Account, debit}
use kudi_ai.Accounts.Mapper as AccountMapper
use kudi_ai.Accounts.Repository as Accounts
use kudi_ai.Transfers.Transfer.{
  Transfer, ExternalParams, initiate_external, mark_processing, pull_domain_events,
}
use kudi_ai.Transfers.Mapper.{create_recipient, to_persistence, matches_digits}
use kudi_ai.Transfers.Repository.{save, update_versioned, create_if_missing, create}
use kudi_ai.Transfers.Fees.{calculate_fee}
use kudi_ai.Transfers.External.{PayoutProvider}
use kudi_ai.Transfers.InitiateInternal.Tests.{ada, gets_ada, parses_amount, allows}
use kudi_ai.Transfers.InitiateExternal.{
  Command, Plan, check, plan_of, hold, hold_legs, posting_of, instruct, conclude, attempt, pay_out,
  do_execute, start,
}
use kudi_ai.Transfers.InitiateExternal.Effects.{IsChecked, IsAccepted, do_execute-IsAccepted}

abbrev provider : PayoutProvider
provider = record {
  initiate_payout = λ reference recipient amount narration.
      ok (record { provider_reference = "FLW-1"; is_immediately_settled = false });
}

abbrev command : Command
command = record {
  initiator_user_id = "ada";
  source_account_id = "a";
  bank_code = "058";
  recipient_account_number = "0123456789";
  recipient_account_name = none;
  amount = codes "200.00";
  narration = "rent";
}

abbrev plan : Plan
plan = record {
  source = ada;
  amount = naira 20000;
  fee = naira 1000;
  total = naira 21000;
  recipient = record { bank_code = "058"; account_number = "0123456789"; account_name = none };
}

plans : plan_of command ada (naira 20000) two_accounts ≡ (ok plan, two_accounts)
unfolding plan_of calculate_fee add create_recipient matches_digits ◌+ℤ◌ matches_decimal
    parse_digits before_dot pad_end after_dot
plans = refl

checks : check command two_accounts ≡ (ok plan, two_accounts)
unfolding check
checks = ground (arith, gets_ada, parses_amount, allows, plans)

abbrev debited : Account
debited = or_else ada (debit 7 (naira 21000) "pending-external-payout:0123456789" ada)

debits : debit 7 (naira 21000) "pending-external-payout:0123456789" ada ≡ ok debited
unfolding debit subtract is_greater_than_or_equal_to ◌-ℤ◌
debits = refl

abbrev held : World
held =
    set_accounts
      (AccountMapper.to_persistence debited ∷ account_row "b" "bayo" "0000000002" (pos 5000) ∷ [])
      two_accounts

saves : Accounts.save debited two_accounts ≡ (ok tt, held)
unfolding Accounts.save Accounts.update_versioned AccountMapper.to_persistence debit query ◌-ℤ◌
    subtract is_greater_than_or_equal_to
saves = refl

holds : hold 7 command plan two_accounts ≡ (ok debited, held)
unfolding hold
holds = ground (arith, debits, saves)

abbrev external_params : ExternalParams
external_params = record {
  initiator_user_id = "ada";
  source_account_id = "a";
  recipient = plan.recipient;
  amount = plan.amount;
  fee = plan.fee;
  narration = "rent";
}

abbrev instructed : Transfer
instructed =
    initiate_external (record { id = "transfer id"; reference = "KUDI-0123456789ABCDEF"; now = 7 })
      external_params

abbrev drawn : World
drawn = record held { drawn = 2 }

abbrev saved : World
saved = set_transfers (to_persistence instructed ∷ []) drawn

saves_instruction : save instructed drawn ≡ (ok tt, saved)
unfolding save create_if_missing create to_persistence initiate_external query
saves_instruction = refl

abbrev posting : Posting
posting = posting_of instructed command "rent" (hold_legs (naira 21000) debited)

abbrev posted : World
posted =
    let (_, w) = post posting saved in
    record (set_ledger_entries w.db.ledger_entries saved) { drawn = w.drawn }

posts : post posting saved ≡ (ok tt, posted)
unfolding post assert_balanced net_by_currency add_net all_zero make_rows make_row
    compute_running_balance create_many random_text query ◌+ℤ◌ ◌-ℤ◌
posts = refl

instructs : instruct 7 command plan debited held ≡ (ok instructed, posted)
unfolding instruct random_text
instructs = ground (arith, saves_instruction, posts)

abbrev processing : Transfer
processing =
    or_else (pull_domain_events instructed).1
      (mark_processing 7 (some "FLW-1") (pull_domain_events instructed).1)

marks : mark_processing 7 (some "FLW-1") (pull_domain_events instructed).1 ≡ ok processing
unfolding mark_processing initiate_external pull_domain_events
marks = refl

abbrev paid : World
paid = set_transfers (to_persistence processing ∷ []) posted

abbrev after : World
after = record paid { published = debited.domain_events ++ instructed.domain_events }

concludes :
    conclude
      (debited.domain_events ++ instructed.domain_events)
      (record { world = posted; transfer = processing })
    ≡ (ok tt, record { world = after; transfer = processing })
unfolding conclude publish_all pull_domain_events mark_processing initiate_external save
    update_versioned to_persistence query debit
concludes = refl

attempts :
    attempt provider 7 command plan
      (debited.domain_events ++ instructed.domain_events)
      (start instructed posted)
    ≡ (ok tt, record { world = after; transfer = processing })
unfolding attempt pull_domain_events
attempts = ground (arith, marks, concludes)

executes : do_execute provider command two_accounts ≡ (ok processing, after)
unfolding do_execute pay_out pull_domain_events
executes = ground (arith, checks, holds, instructs, attempts)

do_execute-IsAccepted_example :
    (p : Plan) × IsChecked command two_accounts p
    × (p.source.status ≡ active)
    × (p.total.minor_units ≤ℤ p.source.balance.minor_units)
    × IsAccepted provider command p processing
do_execute-IsAccepted_example =
    do_execute-IsAccepted provider command two_accounts processing executes
