-- ===== src/Transfers/Executor/Tests.antt =====
-- A run of the executor that goes through, and one that is refused.
use kudi_ai.Common.{◌≡◌, refl, arith, String, ℕ, List, [], ◌∷◌, ◌++◌}
use kudi_ai.Common.Int.{ℤ, pos, ◌+ℤ◌, ◌-ℤ◌}
use kudi_ai.Shared.Enums.{ngn, active, savings, successful}
use kudi_ai.Shared.Errors.{ok, err, or_else, unauthorized_transfer}
use kudi_ai.Shared.Events.{DomainEvent, account_debited, account_credited}
use kudi_ai.Shared.Money.{add}
use kudi_ai.Database.{
  World, AccountRecord, LedgerEntry, Direction, debit as dr, credit as cr,
  transfer as transfer_entry, query, random_text, set_accounts, set_ledger_entries, set_transfers,
}
use kudi_ai.Database.Samples.{naira, account_row, two_accounts}
use kudi_ai.Accounts.Mapper.{matches_nuban, to_domain, to_persistence}
use kudi_ai.Accounts.Account.{Account, debit, credit}
use kudi_ai.Accounts.MaxBalance.{assert_within_limit, check_max_balance}
use kudi_ai.Accounts.Repository.{update_versioned}
use kudi_ai.Compliance.Limits.{resolve_tier, find_by_tier, get_default_kyc_tier_limits}
use kudi_ai.Shared.Money.Decimal.{matches_decimal, before_dot, after_dot, pad_end, parse_digits}
use kudi_ai.Ledger.{
  post, assert_balanced, net_by_currency, add_net, all_zero, make_rows, make_row,
  compute_running_balance, create_many,
}
use kudi_ai.Transfers.Repository as Transfers
use kudi_ai.Transfers.Mapper as TransferMapper
use kudi_ai.Transfers.Transfer.{
  Transfer, InternalParams, initiate_internal, mark_successful, mark_failed, pull_domain_events,
}
use kudi_ai.Transfers.Held.{Held}
use kudi_ai.Transfers.Executor.{
  execute, attempt, transaction, body, settle, load_accounts, load_record, move_funds,
  write_changes, transfer_posting, record_failure,
}
use kudi_ai.Transfers.Executor.Books.{IsTransferred}
use kudi_ai.Transfers.Executor.Outcomes.{execute-eq_ok, execute-eq_err}

abbrev pub rent : InternalParams
rent = record {
  initiator_user_id = "ada";
  source_account_id = "a";
  destination_account_id = "b";
  amount = naira 20000;
  fee = naira 0;
  narration = "rent";
}

abbrev reference : String
reference = "KUDI-0123456789ABCDEF"

abbrev row : (id user number : String) → (version at balance : ℕ) → AccountRecord
row id user number version at balance = record (account_row id user number (pos balance)) {
  version = version;
  updated_at = at;
}

abbrev account : (id user number : String) → (version at balance : ℕ) → List DomainEvent → Account
account id user number version at balance events = record {
  props = record {
    id = id;
    user_id = user;
    account_number = number;
    account_type = savings;
    currency = ngn;
    balance = naira balance;
    status = active;
    version = version;
    created_at = 1;
    updated_at = at;
  };
  domain_events = events;
}

abbrev ada : Account
ada = account "a" "ada" "0000000001" 3 1 100000 []

abbrev bayo : Account
bayo = account "b" "bayo" "0000000002" 3 1 5000 []

abbrev paid : Account
paid =
    account "a" "ada" "0000000001" 4 7 80000
      (account_debited "a" (pos 20000) ngn reference (pos 80000) ∷ [])

abbrev received : Account
received =
    account "b" "bayo" "0000000002" 4 7 25000
      (account_credited "b" (pos 20000) ngn reference (pos 25000) ∷ [])

-- The world when the transaction starts, and after each write.
abbrev drawn_world : ℕ → World
drawn_world n = record two_accounts { drawn = n }

loads : load_accounts rent (drawn_world 2) ≡ (ok (ada, bayo), drawn_world 2)
unfolding load_accounts load_record query to_domain matches_nuban
loads = refl

within : assert_within_limit bayo (naira 20000) (drawn_world 2) ≡ (ok tt, drawn_world 2)
unfolding assert_within_limit resolve_tier find_by_tier get_default_kyc_tier_limits matches_decimal
    before_dot after_dot pad_end parse_digits check_max_balance query ◌+ℤ◌
within = refl

debits : debit 7 (naira 20000) reference ada ≡ ok paid
unfolding debit ◌-ℤ◌
debits = refl

credits : credit 7 (naira 20000) reference bayo ≡ ok received
unfolding credit ◌+ℤ◌
credits = refl

moves :
    move_funds 7 reference rent (naira 20000) ada bayo (drawn_world 2)
    ≡ (ok (paid, received), drawn_world 2)
unfolding move_funds
moves = ground (arith, within, debits, credits)

abbrev paid_rows : List AccountRecord
paid_rows = row "a" "ada" "0000000001" 4 7 80000 ∷ row "b" "bayo" "0000000002" 3 1 5000 ∷ []

abbrev received_rows : List AccountRecord
received_rows = row "a" "ada" "0000000001" 4 7 80000 ∷ row "b" "bayo" "0000000002" 4 7 25000 ∷ []

writes_source :
    update_versioned (to_persistence paid) (drawn_world 2)
    ≡ (ok tt, set_accounts paid_rows (drawn_world 2))
unfolding update_versioned to_persistence
writes_source = refl

writes_destination :
    update_versioned (to_persistence received) (set_accounts paid_rows (drawn_world 2))
    ≡ (ok tt, set_accounts received_rows (drawn_world 2))
unfolding update_versioned to_persistence
writes_destination = refl

abbrev entry : (event account : String) → Direction → (amount : ℕ) → ℤ → LedgerEntry
entry event account direction amount balance = record {
  journal_id = "another text";
  account_id = account;
  user_id = "ada";
  direction = direction;
  amount_minor_units = pos amount;
  balance_after_minor_units = balance;
  currency = ngn;
  entry_type = transfer_entry;
  reference = reference;
  source_event_id = event;
  occurred_at = 7;
}

abbrev entries : List LedgerEntry
entries =
    entry "another text" "a" dr 20000 (pos 80000)
    ∷ entry "another text" "b" cr 20000 (pos 25000)
    ∷ []

abbrev posted : World
posted = set_ledger_entries entries (set_accounts received_rows (drawn_world 5))

posts :
    post
      (transfer_posting reference rent (naira 20000) paid received)
      (set_accounts received_rows (drawn_world 2))
    ≡ (ok tt, posted)
unfolding post assert_balanced net_by_currency add_net all_zero make_rows make_row
    compute_running_balance create_many random_text query ◌+ℤ◌ ◌-ℤ◌
posts = refl

writes : write_changes reference rent (naira 20000) paid received (drawn_world 2) ≡ (ok tt, posted)
unfolding write_changes
writes = ground (arith, writes_source, writes_destination, posts)

abbrev account_events : List DomainEvent
account_events = paid.domain_events ++ received.domain_events

adds : add (naira 20000) (naira 0) ≡ ok (naira 20000)
unfolding add ◌+ℤ◌
adds = refl

settles : settle 7 reference rent (drawn_world 2) ≡ (ok account_events, posted)
unfolding settle
settles = ground (arith, loads, adds, moves, writes)

abbrev new_transfer : Transfer
new_transfer =
    initiate_internal (record { id = "transfer id"; reference = reference; now = 7 }) rent

abbrev settled : Transfer
settled = or_else new_transfer (mark_successful 7 new_transfer)

abbrev pub after : World
after = set_transfers (TransferMapper.to_persistence settled ∷ []) posted

abbrev pub events : List DomainEvent
events = settled.domain_events ++ account_events

marks : mark_successful 7 new_transfer ≡ ok settled
unfolding mark_successful initiate_internal
marks = refl

inserts : Transfers.create (TransferMapper.to_persistence settled) posted ≡ (ok tt, after)
unfolding Transfers.create query
inserts = refl

finishes :
    transaction (body 7 rent) (record { world = drawn_world 2; transfer = new_transfer })
    ≡ (ok account_events, record { world = after; transfer = settled })
unfolding transaction body query initiate_internal
finishes = ground (arith, settles, marks, inserts)

abbrev pub returned : Transfer
returned = record settled { domain_events = [] }

pub pays : execute rent two_accounts ≡ (ok (returned, events), after)
unfolding execute random_text pull_domain_events attempt
pays = ground (arith, finishes)

execute-eq_ok_example :
    IsTransferred 7 returned.reference rent two_accounts after
    × (returned.status ≡ successful)
    × (after.db.transfers
        ≡ two_accounts.db.transfers ++ TransferMapper.to_persistence returned ∷ [])
execute-eq_ok_example = execute-eq_ok rent two_accounts after returned events pays

-- The same transfer for a user who does not own the source.
abbrev stolen : InternalParams
stolen = record rent { initiator_user_id = "eve" }

refuses : load_accounts stolen (drawn_world 2) ≡ (err unauthorized_transfer, drawn_world 2)
unfolding load_accounts load_record query to_domain matches_nuban
refuses = refl

abbrev started : Held
started = record {
  world = drawn_world 2;
  transfer =
      initiate_internal (record { id = "transfer id"; reference = reference; now = 7 }) stolen;
}

rolls_back : transaction (body 7 stolen) started ≡ (err unauthorized_transfer, started)
unfolding transaction body settle query initiate_internal
rolls_back = ground (arith, refuses)

abbrev refused : World
refused = (record_failure {A = List DomainEvent} 7 unauthorized_transfer started).1.world

records :
    (record_failure {A = List DomainEvent} 7 unauthorized_transfer started).0
    ≡ err unauthorized_transfer
unfolding record_failure mark_failed initiate_internal Transfers.save Transfers.update_versioned
    Transfers.create_if_missing Transfers.create TransferMapper.to_persistence query
records = refl

throws : execute stolen two_accounts ≡ (err unauthorized_transfer, refused)
unfolding execute random_text attempt
throws = ground (arith, rolls_back, records)

execute-eq_err_example :
    (refused.db.accounts ≡ two_accounts.db.accounts)
    × (refused.db.ledger_entries ≡ two_accounts.db.ledger_entries)
execute-eq_err_example = execute-eq_err stolen two_accounts refused unauthorized_transfer throws
