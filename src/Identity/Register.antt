-- ===== src/Identity/Register.antt =====
-- modules/identity/application/commands/register-user/register-user.handler.ts. The handler of
-- OpenAccountCommand is called directly; the catch block only logs and throws again.
use kudi_ai.Common.{String, ℕ, List}
use kudi_ai.Shared.Enums.{wallet, ngn}
use kudi_ai.Shared.Errors.{user_already_exists}
use kudi_ai.Shared.Action.{Action, pure, throw, lift, gets, throw_if, try_catch, ◌>>=◌, ◌>>◌}
use kudi_ai.Database.{World, random_text, publish_all}
use kudi_ai.Accounts.Opening.{open_for_user}
use kudi_ai.Identity.Values.{create_email, create_phone_number, create_plain_password, from_hash}
use kudi_ai.Identity.User.{User, register, pull_domain_events}
use kudi_ai.Identity.Repository.{exists_by_email, save_user}
use kudi_ai.Identity.Services.{PasswordHasher}

-- RegisterUserCommand
pub record RegisterCommand : Type 0 where
  pub email : String
  pub phone_number : String
  pub password : String
  pub first_name : String
  pub last_name : String

-- The user that the checks allow, before it is saved.
unfoldable pub prepare : PasswordHasher → RegisterCommand → Action World User
prepare hasher c = do
  email ← lift (create_email c.email)
  already_exists ← exists_by_email email
  throw_if already_exists (user_already_exists email)
  plain ← lift (create_plain_password c.password)
  raw_hash ← lift (hasher.hash plain)
  hash ← lift (from_hash raw_hash)
  phone_number ← lift (create_phone_number c.phone_number)
  id ← random_text
  now ← gets (λ w. w.now)
  pure (
      register id now (record {
        email = email;
        phone_number = phone_number;
        password_hash = hash;
        first_name = c.first_name;
        last_name = c.last_name;
      }))

-- `RegisterUserHandler.execute`
unfoldable pub register_user :
    PasswordHasher → (bank_code : List ℕ) (draws : ℕ → ℕ) → RegisterCommand → Action World User
register_user hasher bank_code draws c = do
  u ← prepare hasher c
  save_user u
  try_catch (do open_for_user bank_code draws u.id wallet ngn; pure tt) (λ e. throw e)
  publish_all (pull_domain_events u).0
  pure (pull_domain_events u).1
