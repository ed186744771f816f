-- ===== src/Accounts/Commands.antt =====
-- The handlers of modules/accounts/application/commands that load an account, change it, save it
-- and publish its events. The response is the account; its fields as text are left out.
pub mod Laws
pub mod Effects
mod Tests
use kudi_ai.Common.{String, ℕ, Option, none, some, List}
use kudi_ai.Shared.Enums.{Currency}
use kudi_ai.Shared.Errors.{account_not_found}
use kudi_ai.Shared.Action.{Action, pure, throw, lift, gets, ◌>>=◌, ◌>>◌}
use kudi_ai.Shared.Money.{from_decimal_string}
use kudi_ai.Database.{World, publish_all}
use kudi_ai.Accounts.Account.{
  Account, activate, credit, debit, freeze, unfreeze, close, pull_domain_events,
}
use kudi_ai.Accounts.Repository.{find_by_id, save}
use kudi_ai.Accounts.MaxBalance.{assert_within_limit}

-- `findById`, and the test of its result.
unfoldable pub get_account : String → Action World Account
get_account id = do
  found ← find_by_id id
  elim found [ none ↦ throw (account_not_found id) | some a ↦ pure a ]

-- `save`, `pullDomainEvents` and `publish`; the account that is left.
unfoldable pub conclude : Account → Action World Account
conclude a = do save a; publish_all (pull_domain_events a).0; pure (pull_domain_events a).1

-- The frame of the handlers.
unfoldable pub with_account : String → (Account → Action World Account) → Action World Account
with_account id change = do a ← get_account id; b ← change a; conclude b

-- A method that needs the time and may throw.
abbrev pub at_time : (ℕ → Account → Action World Account) → Account → Action World Account
at_time f a w = f w.now a w

-- `CreditAccountHandler.execute`
abbrev pub credit_change :
    (amount : List ℕ) → Currency → (reference : String) → Account → Action World Account
credit_change amount currency reference a = do
  m ← lift (from_decimal_string amount currency)
  assert_within_limit a m
  now ← gets (λ w. w.now)
  lift (credit now m reference a)

unfoldable pub credit_account :
    (id : String) (amount : List ℕ) → Currency → (reference : String) → Action World Account
credit_account id amount currency reference =
    with_account id (credit_change amount currency reference)

-- `DebitAccountHandler.execute`
abbrev pub debit_change :
    (amount : List ℕ) → Currency → (reference : String) → Account → Action World Account
debit_change amount currency reference a = do
  m ← lift (from_decimal_string amount currency)
  now ← gets (λ w. w.now)
  lift (debit now m reference a)

unfoldable pub debit_account :
    (id : String) (amount : List ℕ) → Currency → (reference : String) → Action World Account
debit_account id amount currency reference =
    with_account id (debit_change amount currency reference)

-- `CloseAccountHandler.execute`
unfoldable pub close_account : String → Action World Account
close_account id = with_account id (at_time (λ now a. lift (close now a)))

-- `ActivateAccountHandler.execute`
unfoldable pub activate_account : String → Action World Account
activate_account id = with_account id (at_time (λ now a. pure (activate now a)))

-- `FreezeAccountHandler.execute`
unfoldable pub freeze_account : (id reason : String) → Action World Account
freeze_account id reason = with_account id (at_time (λ now a. pure (freeze now reason a)))

-- `UnfreezeAccountHandler.execute`
unfoldable pub unfreeze_account : String → Action World Account
unfreeze_account id = with_account id (at_time (λ now a. pure (unfreeze now a)))
