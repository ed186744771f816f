-- ===== src/Transfers/InitiateInternal.antt =====
-- `doExecute` of modules/transfers/application/commands/initiate-internal-transfer/
-- initiate-internal-transfer.handler.ts. The response is the transfer.
pub mod Effects
pub mod Tests
use kudi_ai.Common.{String, ℕ, not, List, ◌==◌}
use kudi_ai.Shared.Enums.{internal}
use kudi_ai.Shared.Errors.{self_transfer_not_allowed, unauthorized_transfer}
use kudi_ai.Shared.Action.{Action, pure, lift, throw_if, ◌>>=◌, ◌>>◌}
use kudi_ai.Shared.Money.{Money, from_decimal_string}
use kudi_ai.Database.{World, publish_all}
use kudi_ai.Accounts.Account.{Account}
use kudi_ai.Accounts.Commands.{get_account}
use kudi_ai.Transfers.Transfer.{Transfer, InternalParams}
use kudi_ai.Transfers.Fees.{calculate_fee}
use kudi_ai.Transfers.Limits.{assert_within_limits}
use kudi_ai.Transfers.Executor.{execute}

-- InitiateInternalTransferCommand, without its idempotency key
pub record Command : Type 0 where
  pub initiator_user_id : String
  pub source_account_id : String
  pub destination_account_id : String
  pub amount : List ℕ
  pub narration : String

abbrev pub params_of : Command → (amount fee : Money) → InternalParams
params_of c amount fee = record {
  initiator_user_id = c.initiator_user_id;
  source_account_id = c.source_account_id;
  destination_account_id = c.destination_account_id;
  amount = amount;
  fee = fee;
  narration = c.narration;
}

-- The amount, within the limits, and its fee.
unfoldable pub price : Command → Account → Action World (Money × Money)
price c source = do
  amount ← lift (from_decimal_string c.amount source.currency)
  assert_within_limits c.initiator_user_id c.source_account_id amount
  fee ← lift (calculate_fee amount internal)
  pure (amount, fee)

-- What is checked before the money moves; the amount and its fee.
unfoldable pub prepare : Command → Action World (Money × Money)
prepare c = do
  throw_if (c.source_account_id == c.destination_account_id) self_transfer_not_allowed
  source ← get_account c.source_account_id
  throw_if (not (source.user_id == c.initiator_user_id)) unauthorized_transfer
  price c source

unfoldable pub do_execute : Command → Action World Transfer
do_execute c = do
  checked ← prepare c
  result ← execute (params_of c checked.0 checked.1)
  publish_all result.1
  pure result.0
