-- ===== src/Transfers/Confirm.antt =====
-- modules/transfers/application/commands/confirm-external-transfer/
-- confirm-external-transfer.handler.ts: the provider's webhook. The calls of the logger are left
-- out. One reading of the clock serves a call.
pub mod Books
pub mod Settled
pub mod Replay
mod Tests
use kudi_ai.Common.{String, ℕ, Bool, Option, none, some, List, [], ◌++◌, if◌then◌else◌}
use Prim.Native.String
use kudi_ai.Shared.Enums.{is_terminal}
use kudi_ai.Shared.Errors.{transfer_not_found}
use kudi_ai.Shared.Events.{DomainEvent}
use kudi_ai.Shared.Action.{Action, pure, throw, lift, gets, ◌>>=◌, ◌>>◌}
use kudi_ai.Shared.Money.{Money}
use kudi_ai.Shared.Money as Amount
use kudi_ai.Database.{World, transfer as transfer_entry, publish_all}
use kudi_ai.Ledger.{PostingLeg, Posting, post}
use kudi_ai.Accounts.Account.{Account, credit}
use kudi_ai.Accounts.Account as Customer
use kudi_ai.Accounts.Repository as Accounts
use kudi_ai.Transfers.Transfer.{Transfer, mark_successful, mark_reversed, pull_domain_events}
use kudi_ai.Transfers.Repository.{find_by_provider_reference, save}
use kudi_ai.Transfers.External.{settlement_legs, reversal_legs}

-- ConfirmExternalTransferCommand
pub record Command : Type 0 where
  pub provider_reference : String
  pub is_successful : Bool
  pub failure_reason : Option String

abbrev pub confirm_posting : Transfer → (narration : String) → List PostingLeg → Posting
confirm_posting t narration legs = record {
  reference = t.reference;
  narration = narration;
  user_id = t.initiator_user_id;
  entry_type = transfer_entry;
  legs = legs;
}

-- The branch `command.isSuccessful`.
unfoldable pub confirm_success : ℕ → Transfer → Action World (Unit {0})
confirm_success now t = do
  settled ← lift (mark_successful now t)
  save settled
  total ← lift (Amount.add settled.amount settled.fee)
  post (
      confirm_posting settled "external payout confirmed by webhook"
        (settlement_legs total settled.amount settled.fee))
  publish_all (pull_domain_events settled).0

-- The compensating credit of an account that was found; the account after it.
unfoldable pub compensate : ℕ → Transfer → Account → Action World Account
compensate now t a = do
  total ← lift (Amount.add t.amount t.fee)
  source ← lift (credit now total (String.◌++◌ "reversal:" t.reference) a)
  Accounts.save source
  post (
      confirm_posting t "external payout failed at provider (late webhook)"
        (reversal_legs total source))
  pure source

-- The events that the compensated account holds; none where it was not found.
unfoldable pub compensate_found : ℕ → Transfer → Option Account → Action World (List DomainEvent)
compensate_found now t none = pure []
compensate_found now t (some a) = do
  source ← compensate now t a
  pure (Customer.pull_domain_events source).0

abbrev pub reason_of : Option String → String
reason_of none = "Payout failed at provider"
reason_of (some r) = r

-- The rest of `execute`: a late failure.
unfoldable pub confirm_failure : ℕ → (reason : Option String) → Transfer → Action World (Unit {0})
confirm_failure now reason t = do
  found ← Accounts.find_by_id t.source_account_id
  account_events ← compensate_found now t found
  reversed ← lift (mark_reversed now (reason_of reason) t)
  save reversed
  publish_all (account_events ++ (pull_domain_events reversed).0)

unfoldable pub confirm_found : Command → Option Transfer → Action World (Unit {0})
confirm_found c none w = throw (transfer_not_found c.provider_reference) w
confirm_found c (some t) w =
    if is_terminal t.status
    then pure tt w
    else if c.is_successful
    then confirm_success w.now t w
    else confirm_failure w.now c.failure_reason t w

-- `execute`
unfoldable pub execute : Command → Action World (Unit {0})
execute c = do found ← find_by_provider_reference c.provider_reference; confirm_found c found
