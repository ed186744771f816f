-- ===== src/Transfers/InitiateExternal/Journal.antt =====
-- The journals of the whole handler, on every path.
use kudi_ai.Common.{◌≡◌, ◌⊎◌, List}
use Prim.Native.String
use kudi_ai.Shared.Enums.{TransactionStatus, successful, processing}
use kudi_ai.Shared.Errors.{Result, ok}
use kudi_ai.Database.{World, LedgerEntry}
use kudi_ai.Accounts.Account.{Account}
use kudi_ai.Transfers.Transfer.{Transfer}
use kudi_ai.Transfers.Journals.{hold_lines, settlement_lines, reversal_lines, Writes}
use kudi_ai.Transfers.Held.{Held}
use kudi_ai.Transfers.InitiateExternal.{Command, Plan, hold}
use kudi_ai.Transfers.InitiateExternal.Effects.{IsChecked}
use kudi_ai.Transfers.InitiateExternal.Books.{MayWrite}

-- From the entries xs to ys the payout is settled or not, and then reversed or not: settled where
-- `settled` holds, not where `pending` holds, and reversed in neither case.
pub record IsPaid (c : Command) (p : Plan) (settled pending : Type 0) (xs ys : List LedgerEntry)
    : Type 0 where
  pub between : List LedgerEntry
  pub settlement : Writes (settlement_lines p.amount p.fee) settled xs between
  pub reversal : MayWrite (reversal_lines c.source_account_id p.amount p.fee) between ys
  pub kept : settled ⊎ pending → ys ≡ between
  pub unsettled : pending → between ≡ xs

abbrev Answer : Type 0
Answer = Result Transfer × World

-- The handler returns a transfer, and one of this status.
abbrev pub Returns : Answer → Type 0
Returns z = (t : Transfer) × (z.0 ≡ ok t)

abbrev pub ReturnsWith : Answer → TransactionStatus → Type 0
ReturnsWith z status = (t : Transfer) × (z.0 ≡ ok t) × (t.status ≡ status)

-- What an answer has written after the checks.
pub record IsJournaled (c : Command) (w : World) (z : Answer) : Type 0 where
  pub plan : Plan
  pub checked : IsChecked c w plan
  pub held : List LedgerEntry
  pub hold :
      Writes
        (hold_lines c.source_account_id plan.amount plan.fee)
        (Returns z)
        w.db.ledger_entries
        held
  pub paid :
      IsPaid c plan (ReturnsWith z successful) (ReturnsWith z processing) held z.1.db.ledger_entries
