-- ===== src/Transfers/Executor.antt =====
-- modules/transfers/infrastructure/services/prisma-internal-transfer-executor.service.ts. The
-- closure of `$transaction` changes the object `transfer`, which outlives a rollback: the steps
-- act on the world together with that object. One reading of the clock serves a whole call.
pub mod Phases
pub mod Effects
pub mod Books
pub mod Tests
pub mod Outcomes
use kudi_ai.Common.{
  String, Bool, not, Option, none, some, List, [], ◌∷◌, ◌++◌, ◌==◌, if◌then◌else◌, ℕ,
}
use kudi_ai.Shared.Errors.{
  Error, Result, ok, err, message, account_not_found, unauthorized_transfer,
}
use kudi_ai.Shared.Events.{DomainEvent}
use kudi_ai.Shared.Action.{
  Action, pure, throw, lift, gets, modify, throw_if, try_catch, ◌>>=◌, ◌>>◌,
}
use kudi_ai.Shared.Money.{Money, is_zero}
use kudi_ai.Shared.Money as Amount
use kudi_ai.Database.{
  AccountRecord, Db, World, debit as dr, credit as cr, transfer as transfer_entry, query,
  random_text,
}
use kudi_ai.Database.Tables.{find}
use kudi_ai.Ledger.{PostingLeg, Posting, fee_revenue, post}
use kudi_ai.Accounts.Account.{Account, debit, credit}
use kudi_ai.Accounts.Mapper.{to_domain, to_persistence}
use kudi_ai.Accounts.Repository.{has_id, update_versioned}
use kudi_ai.Accounts.MaxBalance.{assert_within_limit}
use kudi_ai.Transfers.Transfer.{
  Transfer, InternalParams, initiate_internal, mark_successful, mark_failed, pull_domain_events,
}
use kudi_ai.Transfers.Held.{Held, on_world, on_transfer}
use kudi_ai.Transfers.Mapper as TransferMapper
use kudi_ai.Transfers.Repository as Transfers

-- `tx.account.findUnique` and the test of its result.
unfoldable pub load_record : String → Action World AccountRecord
load_record id = do
  query
  found ← gets (λ w. find (has_id id) w.db.accounts)
  elim found [ none ↦ throw (account_not_found id) | some r ↦ pure r ]

-- Both accounts, and the check of the owner.
unfoldable pub load_accounts : InternalParams → Action World (Account × Account)
load_accounts p = do
  source_record ← load_record p.source_account_id
  destination_record ← load_record p.destination_account_id
  source ← lift (to_domain source_record)
  destination ← lift (to_domain destination_record)
  throw_if (not (source.user_id == p.initiator_user_id)) unauthorized_transfer
  pure (source, destination)

-- The debit of amount and fee, the limit of the destination, and the credit of the amount.
unfoldable pub move_funds :
    ℕ
    → String
    → InternalParams
    → (total : Money) (source destination : Account) → Action World (Account × Account)
move_funds now reference p total source destination = do
  debited ← lift (debit now total reference source)
  assert_within_limit destination p.amount
  credited ← lift (credit now p.amount reference destination)
  pure (debited, credited)

-- `saveAccountInTransaction`: the same update and check as the repository's.
abbrev pub save_account_in_transaction : Account → Action World (Unit {0})
save_account_in_transaction a = update_versioned (to_persistence a)

abbrev pub transfer_legs :
    InternalParams → (total : Money) (source destination : Account) → List PostingLeg
transfer_legs p total source destination =
    record {
      account_id = source.id;
      direction = dr;
      amount = total;
      balance_after = some source.balance;
    }
    ∷ record {
      account_id = destination.id;
      direction = cr;
      amount = p.amount;
      balance_after = some destination.balance;
    }
    ∷ (if is_zero p.fee
        then []
        else record {
          account_id = fee_revenue p.fee.currency;
          direction = cr;
          amount = p.fee;
          balance_after = none;
        }
          ∷ [])

abbrev pub transfer_posting :
    String → InternalParams → (total : Money) (source destination : Account) → Posting
transfer_posting reference p total source destination = record {
  reference = reference;
  narration = p.narration;
  user_id = p.initiator_user_id;
  entry_type = transfer_entry;
  legs = transfer_legs p total source destination;
}

-- The writes of the transaction to accounts and ledger; returns the accounts' events.
unfoldable pub write_changes :
    String
    → InternalParams
    → (total : Money) (source destination : Account) → Action World (Unit {0})
write_changes reference p total source destination = do
  save_account_in_transaction source
  save_account_in_transaction destination
  post (transfer_posting reference p total source destination)

-- The transaction's closure up to `transfer.markSuccessful()`.
unfoldable pub settle : ℕ → String → InternalParams → Action World (List DomainEvent)
settle now reference p = do
  accounts ← load_accounts p
  total ← lift (Amount.add p.amount p.fee)
  changed ← move_funds now reference p total accounts.0 accounts.1
  write_changes reference p total changed.0 changed.1
  pure (changed.0.domain_events ++ changed.1.domain_events)

-- The transaction's closure.
unfoldable pub body : ℕ → InternalParams → Action Held (List DomainEvent)
body now p = do
  reference ← gets (λ s. s.transfer.reference)
  account_events ← on_world (settle now reference p)
  on_transfer (mark_successful now)
  transfer ← gets (λ s. s.transfer)
  on_world (Transfers.create (TransferMapper.to_persistence transfer))
  pure account_events

abbrev pub restore : Db → Held → Held
restore db s = record s { world = record s.world { db = db } }

-- `prisma.$transaction`: a connection, the closure, the commit. Whatever throws, the closure or
-- the commit, the database is what it was; the objects of the closure are not.
unfoldable pub transaction : {A : Type 0} → Action Held A → Action Held A
transaction closure = do
  on_world query
  db ← gets (λ s. s.world.db)
  try_catch (do a ← closure; on_world query; pure a) (λ e. do modify (restore db); throw e)

-- The catch block: the transfer is saved as FAILED, and the error is thrown again.
unfoldable pub record_failure : {A : Type 0} → ℕ → Error → Action Held A
record_failure now e = do
  on_transfer (mark_failed now (message e))
  transfer ← gets (λ s. s.transfer)
  on_world (Transfers.save transfer)
  throw e

unfoldable pub attempt : ℕ → InternalParams → Action Held (List DomainEvent)
attempt now p = try_catch (transaction (body now p)) (record_failure now)

abbrev pub finish : Result (List DomainEvent) × Held → Result (Transfer × List DomainEvent) × World
finish (ok account_events, s) =
    let (events, transfer) = pull_domain_events s.transfer in
    (ok (transfer, events ++ account_events), s.world)
finish (err e, s) = (err e, s.world)

-- `execute`: the transfer and its events with the accounts' events.
unfoldable pub execute : InternalParams → Action World (Transfer × List DomainEvent)
execute p = do
  id ← random_text
  reference ← random_text
  now ← gets (λ w. w.now)
  let transfer = initiate_internal (record { id = id; reference = reference; now = now }) p
  λ w. finish (attempt now p (record { world = w; transfer = transfer }))
