-- ===== src/Accounts/Opening.antt =====
-- The handlers of modules/accounts/application that open accounts
-- (commands/open-account/open-account.handler.ts) and activate them when the user's tier rises
-- (event-handlers/kyc-tier-upgraded.handler.ts), and its queries. The calls of the logger are left
-- out. Nest's ForbiddenException is a failure with its message.
use kudi_ai.Common.{String, ℕ, Bool, true, false, not, ◌&&◌, List, [], ◌∷◌, ◌==◌}
use kudi_ai.Shared.Enums.{
  AccountType, Currency, KycTier, tier_1, tier_2, tier_3, pending_verification, active, dormant,
  frozen, closed,
}
use kudi_ai.Shared.Errors.{failure}
use kudi_ai.Shared.Action.{Action, pure, gets, throw_if, try_catch, ◌>>=◌, ◌>>◌}
use kudi_ai.Database.{World, random_text}
use kudi_ai.Database.Tables.{select}
use kudi_ai.Accounts.Account.{Account, open_account}
use kudi_ai.Accounts.Repository.Queries.{find_all_by_user_id}
use kudi_ai.Accounts.Numbers.{generate}
use kudi_ai.Accounts.Commands.{get_account, conclude, activate_account}

-- `OpenAccountHandler.execute`
unfoldable pub open_for_user :
    (bank_code : List ℕ) (draws : ℕ → ℕ)
    → (user_id : String) → AccountType
    → Currency
    → Action World Account
open_for_user bank_code draws user_id account_type currency = do
  account_number ← generate bank_code draws
  id ← random_text
  now ← gets (λ w. w.now)
  conclude (open_account id now user_id account_number account_type currency)

abbrev pub is_pending : Account → Bool
is_pending a = elim a.status [
  | active ↦ false
  | dormant ↦ false
  | frozen ↦ false
  | closed ↦ false
  | pending_verification ↦ true
]

-- The loop of `handle`: what an activation throws is logged alone.
unfoldable pub activate_all : List Account → Action World (Unit {0})
activate_all [] = pure tt
activate_all (a ∷ rest) = do
  try_catch (do activate_account a.id; pure tt) (λ e. pure tt)
  activate_all rest

-- `KycTierUpgradedHandler.handle`
unfoldable pub handle_tier_upgraded :
    (user_id : String) (new_tier : KycTier) → Action World (Unit {0})
handle_tier_upgraded user_id tier_1 = pure tt
handle_tier_upgraded user_id tier_2 = do
  accounts ← find_all_by_user_id user_id
  activate_all (select is_pending accounts)
handle_tier_upgraded user_id tier_3 = do
  accounts ← find_all_by_user_id user_id
  activate_all (select is_pending accounts)

-- `GetAccountByIdHandler.execute`
unfoldable pub get_account_by_id :
    (account_id requesting_user_id : String) (is_admin : Bool) → Action World Account
get_account_by_id account_id requesting_user_id is_admin = do
  a ← get_account account_id
  throw_if (not (a.user_id == requesting_user_id) && not is_admin)
      (failure "You may only access your own accounts")
  pure a

-- `ListMyAccountsHandler.execute`
unfoldable pub list_my_accounts : (user_id : String) → Action World (List Account)
list_my_accounts user_id = find_all_by_user_id user_id
