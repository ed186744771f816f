-- ===== src/Transfers/InitiateExternal.antt =====
-- `doExecute` of modules/transfers/application/commands/initiate-external-transfer/
-- initiate-external-transfer.handler.ts: hold the funds, store the instruction, ask the provider,
-- and give the funds back where that throws. The calls of the logger are left out, one reading of
-- the clock serves a call, and the response is the transfer.
pub mod Books
pub mod Effects
mod Journal
mod Tests
use kudi_ai.Common.{
  String, ℕ, Bool, not, Option, none, some, List, [], ◌∷◌, ◌++◌, ◌==◌, if◌then◌else◌,
}
use Prim.Native.String
use kudi_ai.Shared.Enums.{external}
use kudi_ai.Shared.Errors.{Error, Result, message, unauthorized_transfer}
use kudi_ai.Shared.Events.{DomainEvent}
use kudi_ai.Shared.Action.{
  Action, pure, throw, lift, gets, modify, throw_if, try_catch, ◌>>=◌, ◌>>◌,
}
use kudi_ai.Shared.Money.{Money, from_decimal_string}
use kudi_ai.Shared.Money as Amount
use kudi_ai.Database.{
  World, debit as dr, credit as cr, transfer as transfer_entry, random_text, publish_all,
}
use kudi_ai.Ledger.{PostingLeg, Posting, external_payout_clearing, post}
use kudi_ai.Accounts.Account.{Account, debit, credit}
use kudi_ai.Accounts.Repository as Accounts
use kudi_ai.Accounts.Commands.{get_account}
use kudi_ai.Transfers.Transfer.{
  Transfer, ExternalRecipient, initiate_external, mark_processing, mark_successful, mark_reversed,
  pull_domain_events,
}
use kudi_ai.Transfers.Mapper.{create_recipient}
use kudi_ai.Transfers.Repository.{save}
use kudi_ai.Transfers.Fees.{calculate_fee}
use kudi_ai.Transfers.Limits.{assert_within_limits}
use kudi_ai.Transfers.External.{PayoutProvider, settlement_legs, reversal_legs}
use kudi_ai.Transfers.Held.{Held, on_world, on_transfer}

-- InitiateExternalTransferCommand, without its idempotency key
pub record Command : Type 0 where
  pub initiator_user_id : String
  pub source_account_id : String
  pub bank_code : String
  pub recipient_account_number : String
  pub recipient_account_name : Option String
  pub amount : List ℕ
  pub narration : String

-- What is known before the first write.
pub record Plan : Type 0 where
  pub source : Account
  pub amount : Money
  pub fee : Money
  pub total : Money
  pub recipient : ExternalRecipient

-- The fee, the total and the recipient.
unfoldable pub plan_of : Command → Account → Money → Action World Plan
plan_of c source amount = do
  fee ← lift (calculate_fee amount external)
  total ← lift (Amount.add amount fee)
  recipient ←
      lift (create_recipient c.bank_code c.recipient_account_number c.recipient_account_name)
  pure
      (record { source = source; amount = amount; fee = fee; total = total; recipient = recipient })

-- The checks and the arithmetic before Step 1.
unfoldable pub check : Command → Action World Plan
check c = do
  source ← get_account c.source_account_id
  throw_if (not (source.user_id == c.initiator_user_id)) unauthorized_transfer
  amount ← lift (from_decimal_string c.amount source.currency)
  assert_within_limits c.initiator_user_id c.source_account_id amount
  plan_of c source amount

-- Step 1: the debited account, which holds its events.
unfoldable pub hold : ℕ → Command → Plan → Action World Account
hold now c p = do
  source ← lift (
      debit now p.total (String.◌++◌ "pending-external-payout:" c.recipient_account_number)
        p.source)
  Accounts.save source
  pure source

abbrev pub posting_of : Transfer → Command → (narration : String) → List PostingLeg → Posting
posting_of t c narration legs = record {
  reference = t.reference;
  narration = narration;
  user_id = c.initiator_user_id;
  entry_type = transfer_entry;
  legs = legs;
}

abbrev pub hold_legs : (total : Money) (source : Account) → List PostingLeg
hold_legs total source =
    record {
      account_id = source.id;
      direction = dr;
      amount = total;
      balance_after = some source.balance;
    }
    ∷ record {
      account_id = external_payout_clearing total.currency;
      direction = cr;
      amount = total;
      balance_after = none;
    }
    ∷ []

-- Step 2: the stored instruction, with its event, and the journal of the hold.
unfoldable pub instruct : ℕ → Command → Plan → Account → Action World Transfer
instruct now c p source = do
  id ← random_text
  reference ← random_text
  let t =
      initiate_external (record { id = id; reference = reference; now = now })
        (record {
          initiator_user_id = c.initiator_user_id;
          source_account_id = c.source_account_id;
          recipient = p.recipient;
          amount = p.amount;
          fee = p.fee;
          narration = c.narration;
        })
  save t
  post (posting_of t c c.narration (hold_legs p.total source))
  pure t

-- The provider has settled the payout at once.
unfoldable pub settle_at_once : ℕ → Command → Plan → Action Held (Unit {0})
settle_at_once now c p = do
  on_transfer (mark_successful now)
  t ← gets (λ s. s.transfer)
  on_world (post (posting_of t c c.narration (settlement_legs p.total p.amount p.fee)))

-- `transfer.pullDomainEvents()`
abbrev pub pull : Action Held (List DomainEvent)
pull s = let (es, t) = pull_domain_events s.transfer in pure es (record s { transfer = t })

-- The save of the transfer, and the publishing of its events after those given.
unfoldable pub conclude : List DomainEvent → Action Held (Unit {0})
conclude earlier = do
  t ← gets (λ s. s.transfer)
  on_world (save t)
  events ← pull
  on_world (publish_all (earlier ++ events))

-- The `try` block of Step 3.
unfoldable pub attempt :
    PayoutProvider → ℕ → Command → Plan → List DomainEvent → Action Held (Unit {0})
attempt provider now c p earlier = do
  t ← gets (λ s. s.transfer)
  result ← lift (provider.initiate_payout t.reference p.recipient p.amount c.narration)
  if result.is_immediately_settled
      then settle_at_once now c p
      else on_transfer (mark_processing now (some result.provider_reference))
  conclude earlier

-- The credit of an account that was found, its save and its journal; the events that it holds.
unfoldable pub refund :
    ℕ → Command → Plan → Transfer → Option Account → Action World (List DomainEvent)
refund now c p t none = pure []
refund now c p t (some a) = do
  source ← lift (credit now p.total (String.◌++◌ "reversal:" t.reference) a)
  Accounts.save source
  post (posting_of t c (String.◌++◌ "reversal: " c.narration) (reversal_legs p.total source))
  pure source.domain_events

-- The `catch` block of Step 3.
unfoldable pub compensate : ℕ → Command → Plan → List DomainEvent → Error → Action Held (Unit {0})
compensate now c p earlier e = do
  found ← on_world (Accounts.find_by_id c.source_account_id)
  t ← gets (λ s. s.transfer)
  events ← on_world (refund now c p t found)
  on_transfer (mark_reversed now (message e))
  conclude (earlier ++ events)
  throw e

-- Step 3 on the world and the transfer that the call holds, whose event was pulled.
unfoldable pub pay_out :
    PayoutProvider → ℕ → Command → Plan → List DomainEvent → Action Held (Unit {0})
pay_out provider now c p earlier =
    try_catch (attempt provider now c p earlier) (compensate now c p earlier)

abbrev pub finish : Result (Unit {0}) × Held → Result Transfer × World
finish (Result.ok _, s) = (Result.ok s.transfer, s.world)
finish (Result.err e, s) = (Result.err e, s.world)

abbrev pub start : Transfer → World → Held
start t w = record { world = w; transfer = (pull_domain_events t).1 }

-- `doExecute`
unfoldable pub do_execute : PayoutProvider → Command → Action World Transfer
do_execute provider c = do
  p ← check c
  now ← gets (λ w. w.now)
  source ← hold now c p
  t ← instruct now c p source
  λ w.
      finish
        (pay_out provider now c p (source.domain_events ++ (pull_domain_events t).0) (start t w))
