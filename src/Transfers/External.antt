-- ===== src/Transfers/External.antt =====
-- The legs of an external payout's journals, which initiate-external-transfer.handler.ts and
-- confirm-external-transfer.handler.ts (modules/transfers/application/commands) both build.
use kudi_ai.Common.{String, Bool, none, some, List, [], ◌∷◌, if◌then◌else◌}
use kudi_ai.Shared.Errors.{Result}
use kudi_ai.Shared.Money.{Money, is_zero}
use kudi_ai.Transfers.Transfer.{ExternalRecipient}
use kudi_ai.Database.{debit as dr, credit as cr}
use kudi_ai.Ledger.{PostingLeg, fee_revenue, external_payout_clearing, external_payout_settled}
use kudi_ai.Accounts.Account.{Account}

-- The clearing account is relieved to the settled payouts and the fees.
abbrev pub settlement_legs : (total amount fee : Money) → List PostingLeg
settlement_legs total amount fee =
    record {
      account_id = external_payout_clearing total.currency;
      direction = dr;
      amount = total;
      balance_after = none;
    }
    ∷ record {
      account_id = external_payout_settled amount.currency;
      direction = cr;
      amount = amount;
      balance_after = none;
    }
    ∷ (if is_zero fee
        then []
        else record {
          account_id = fee_revenue fee.currency;
          direction = cr;
          amount = fee;
          balance_after = none;
        }
          ∷ [])

-- The clearing account is relieved to the customer.
abbrev pub reversal_legs : (total : Money) (source : Account) → List PostingLeg
reversal_legs total source =
    record {
      account_id = external_payout_clearing total.currency;
      direction = dr;
      amount = total;
      balance_after = none;
    }
    ∷ record {
      account_id = source.id;
      direction = cr;
      amount = total;
      balance_after = some source.balance;
    }
    ∷ []

-- PayoutInitiationResult and IExternalPayoutProvider
-- (modules/transfers/domain/services/external-payout-provider.interface.ts). The provider answers
-- or throws; of the world it changes nothing.
pub record PayoutResult : Type 0 where
  pub provider_reference : String
  pub is_immediately_settled : Bool

pub record PayoutProvider : Type 0 where
  pub initiate_payout :
      (reference : String) → ExternalRecipient → Money → (narration : String) → Result PayoutResult
