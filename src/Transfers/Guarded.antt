-- ===== src/Transfers/Guarded.antt =====
-- `execute` of the handlers that start a transfer (modules/transfers/application/commands), which
-- runs `doExecute` under the idempotency guard, and the query of
-- application/queries/get-transfer-by-reference. Nest's ForbiddenException is a failure with its
-- message.
use kudi_ai.Common.{String, Bool, not, ◌&&◌, Option, none, some, ◌==◌}
use kudi_ai.Shared.Errors.{account_not_found, transfer_not_found, failure}
use kudi_ai.Shared.Action.{Action, pure, throw, lift, gets, throw_if, ◌>>=◌, ◌>>◌}
use kudi_ai.Database.{World, query}
use kudi_ai.Database.Tables.{find}
use kudi_ai.Idempotency.{Contended, run}
use kudi_ai.Transfers.Transfer.{Transfer}
use kudi_ai.Transfers.Mapper.{create_reference}
use kudi_ai.Transfers.Repository.{find_by_id, read_transfer}
use kudi_ai.Transfers.External.{PayoutProvider}
use kudi_ai.Transfers.InitiateInternal as Internal
use kudi_ai.Transfers.InitiateExternal as External

-- `async (resourceId) => { … }`
unfoldable pub rehydrate : String → Action World Transfer
rehydrate resource_id = do
  found ← find_by_id resource_id
  elim found [ none ↦ throw (account_not_found resource_id) | some t ↦ pure t ]

-- `{ resourceId: response.id, response }`
abbrev pub with_resource_id : Action World Transfer → Action World (String × Transfer)
with_resource_id m = do t ← m; pure (t.id, t)

-- `InitiateInternalTransferHandler.execute`
unfoldable pub execute_internal :
    Internal.Command → (idempotency_key : Option String) → Action Contended Transfer
execute_internal c key =
    run c.initiator_user_id "transfer.internal" key (with_resource_id (Internal.do_execute c))
      rehydrate

-- `InitiateExternalTransferHandler.execute`
unfoldable pub execute_external :
    PayoutProvider
    → External.Command
    → (idempotency_key : Option String) → Action Contended Transfer
execute_external provider c key =
    run c.initiator_user_id "transfer.external" key
      (with_resource_id (External.do_execute provider c)) rehydrate

-- `PrismaTransferRepository.findByReference`
unfoldable pub find_by_reference : String → Action World (Option Transfer)
find_by_reference reference = do
  query
  row ← gets (λ w. find (λ r. r.reference == reference) w.db.transfers)
  lift (read_transfer row)

-- `GetTransferByReferenceHandler.execute`
unfoldable pub get_transfer_by_reference :
    (reference requesting_user_id : String) (is_admin : Bool) → Action World Transfer
get_transfer_by_reference raw requesting_user_id is_admin = do
  reference ← lift (create_reference raw)
  found ← find_by_reference reference
  t ← elim found [ none ↦ throw (transfer_not_found raw) | some t ↦ pure t ]
  throw_if (not (t.initiator_user_id == requesting_user_id) && not is_admin)
      (failure "You may only access your own transfers")
  pure t
