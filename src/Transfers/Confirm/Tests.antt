-- ===== src/Transfers/Confirm/Tests.antt =====
-- A webhook that settles a payout, and a second one.
use kudi_ai.Common.{◌≡◌, refl, ap, arith, true, false, none, some, [], ◌∷◌, ◌++◌}
use kudi_ai.Common.Int.{◌+ℤ◌, ◌-ℤ◌}
use kudi_ai.Shared.Errors.{ok, or_else}
use kudi_ai.Shared.Enums
use kudi_ai.Shared.Money as Amount
use kudi_ai.Database.{World, query, random_text, set_transfers, publish_all}
use kudi_ai.Database.Samples.{naira, two_accounts}
use kudi_ai.Ledger.{
  Posting, post, assert_balanced, net_by_currency, add_net, all_zero, make_rows, make_row,
  compute_running_balance, create_many,
}
use kudi_ai.Transfers.Transfer.{
  Transfer, ExternalParams, initiate_external, mark_processing, mark_successful, reconstitute,
  pull_domain_events,
}
use kudi_ai.Transfers.Mapper.{
  to_domain, to_persistence, read_recipient, matches_digits, matches_reference,
}
use kudi_ai.Transfers.Repository.{find_by_provider_reference, read_transfer, save, update_versioned}
use kudi_ai.Transfers.External.{settlement_legs}
use kudi_ai.Transfers.Confirm.{Command, confirm_posting, confirm_success, confirm_found, execute}
use kudi_ai.Transfers.Confirm.Books.{Compensates, execute-Writes}
use kudi_ai.Transfers.Journals.{Writes, settlement_lines, reversal_lines}
use kudi_ai.Transfers.Confirm.Replay.{execute-execute_ignored}

abbrev payout : ExternalParams
payout = record {
  initiator_user_id = "ada";
  source_account_id = "a";
  recipient = record { bank_code = "058"; account_number = "0123456789"; account_name = none };
  amount = naira 20000;
  fee = naira 1000;
  narration = "rent";
}

abbrev new_transfer : Transfer
new_transfer =
    initiate_external (record { id = "t"; reference = "KUDI-0123456789ABCDEF"; now = 1 }) payout

abbrev processing : Transfer
processing =
    reconstitute (or_else new_transfer (mark_processing 2 (some "FLW-1") new_transfer)).props

abbrev before : World
before = set_transfers (to_persistence processing ∷ []) two_accounts

reads : find_by_provider_reference "FLW-1" before ≡ (ok (some processing), before)
unfolding find_by_provider_reference read_transfer to_domain to_persistence read_recipient
    matches_digits matches_reference initiate_external mark_processing query
reads = refl

abbrev settled : Transfer
settled = or_else processing (mark_successful 7 processing)

marks : mark_successful 7 processing ≡ ok settled
unfolding mark_successful mark_processing initiate_external
marks = refl

abbrev stored : World
stored = set_transfers (to_persistence settled ∷ []) before

saves : save settled before ≡ (ok tt, stored)
unfolding save update_versioned to_persistence mark_successful mark_processing initiate_external
    query
saves = refl

adds : Amount.add settled.amount settled.fee ≡ ok (naira 21000)
unfolding Amount.add mark_successful mark_processing initiate_external ◌+ℤ◌
adds = refl

abbrev posting : Posting
posting =
    confirm_posting settled "external payout confirmed by webhook"
      (settlement_legs (naira 21000) settled.amount settled.fee)

abbrev posted : World
posted = (post posting stored).1

posts : post posting stored ≡ (ok tt, posted)
unfolding post assert_balanced net_by_currency add_net all_zero make_rows make_row
    compute_running_balance create_many random_text query ◌+ℤ◌ ◌-ℤ◌ mark_successful mark_processing
    initiate_external
posts = refl

pending_status : processing.status ≡ Enums.processing
unfolding mark_processing initiate_external
pending_status = refl

abbrev webhook : Command
webhook = record { provider_reference = "FLW-1"; is_successful = true; failure_reason = none }

abbrev after : World
after = record posted { published = posted.published ++ settled.domain_events }

confirms : confirm_success 7 processing before ≡ (ok tt, after)
unfolding confirm_success publish_all pull_domain_events
confirms = ground (arith, marks, saves, adds, posts)

executes : execute webhook before ≡ (ok tt, after)
unfolding execute confirm_found
executes = ground (arith, reads, confirms, pending_status)

execute-execute_ignored_example :
    let late : Command = record {
      provider_reference = "FLW-1";
      is_successful = false;
      failure_reason = none;
    } in
    ((execute late after).1.db ≡ after.db) × ((execute late after).1.published ≡ after.published)
execute-execute_ignored_example =
    execute-execute_ignored webhook
      (record { provider_reference = "FLW-1"; is_successful = false; failure_reason = none }) before
      after refl executes

execute-Writes_example :
    (true ≡ true
      → Writes
          (settlement_lines (naira 20000) (naira 1000))
          ((execute webhook before).0 ≡ ok tt)
          before.db.ledger_entries
          (execute webhook before).1.db.ledger_entries)
    × (true ≡ false
        → Writes
            (reversal_lines "a" (naira 20000) (naira 1000))
            (Compensates "a" before ((execute webhook before).0 ≡ ok tt))
            before.db.ledger_entries
            (execute webhook before).1.db.ledger_entries)
unfolding mark_processing initiate_external
execute-Writes_example =
    execute-Writes webhook before processing (ap (λ z. z.0) reads)
      (ap Enums.is_terminal pending_status)
