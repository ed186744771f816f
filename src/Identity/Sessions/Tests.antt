-- ===== src/Identity/Sessions/Tests.antt =====
-- A refresh, a login and a new password.
use kudi_ai.Common.{◌≡◌, refl, arith, ◌+◌, none, some, [], ◌∷◌, inl, ◌==◌, ltb, if◌then◌else◌}
use Prim.Native.String
use kudi_ai.Shared.Users.{customer, active, locked, pending_verification}
use kudi_ai.Shared.Errors.{ok, err, account_locked}
use kudi_ai.Shared.Money.Decimal.{is_digit}
use kudi_ai.Database.{World, query, random_text, set_users, set_refresh_tokens, publish_all}
use kudi_ai.Database.Samples.{two_accounts}
use kudi_ai.Database.Schema.{UserRecord, RefreshTokenRecord}
use kudi_ai.Identity.Values.{create_email, create_phone_number, create_plain_password, from_hash}
use kudi_ai.Identity.User.{
  User, reconstitute, to_domain, to_persistence, assert_can_attempt_login, record_failed_login,
  change_password, unlock, lockout_duration_ms,
}
use kudi_ai.Identity.User.Lockout.{assert_can_attempt_login-record_failed_login}
use kudi_ai.Identity.RefreshToken.{revoke, issue}
use kudi_ai.Identity.Repository.{
  read_user, find_user_by_id, find_by_token_hash, save_token, save_user, revoke_where,
}
use kudi_ai.Identity.Services.{PasswordHasher, TokenService}
use kudi_ai.Identity.Sessions.{
  LoginCommand, RefreshCommand, ChangePasswordCommand, AuthResponse, login, refresh, refresh_found,
  refresh_active, rotate, change_password_of, change_password_handler,
}
use kudi_ai.Identity.Repository.Guarded.{AllGuarded}
use kudi_ai.Identity.Sessions.Lockout.{login-AllGuarded}
use kudi_ai.Database.Tables.{find}
use kudi_ai.Identity.Repository.{has_hash}
use kudi_ai.Identity.Sessions.Rotation.{Refused, refresh-refresh-Refused}
use kudi_ai.Identity.Sessions.Ending.{IsChanged, change_password_handler-IsChanged}

abbrev hasher : PasswordHasher
hasher = record {
  hash = λ p. ok (String.◌++◌ "hash of " p);
  compare = λ p h. ok (String.◌++◌ "hash of " p == h);
}

abbrev tokens : TokenService
tokens = record {
  sign_access_token = λ sub email role. ok ("jwt", 900);
  hash_refresh_token = λ t. String.◌++◌ "sha of " t;
}

abbrev ada : UserRecord
ada = record {
  id = "ada";
  email = "ada@kudi.ng";
  phone_number = "+2348012345678";
  password_hash = "hash of first-secret";
  first_name = "Ada";
  last_name = "Obi";
  role = customer;
  status = pending_verification;
  failed_login_attempts = 4;
  locked_until = none;
  last_login_at = none;
  created_at = 1;
  updated_at = 1;
}

abbrev session : RefreshTokenRecord
session = record {
  id = "session";
  user_id = "ada";
  token_hash = "sha of r0";
  family = "family";
  expires_at = 1000000;
  revoked_at = none;
  replaced_by_token_id = none;
  ip_address = none;
  user_agent = none;
  created_at = 1;
}

abbrev before : World
before = set_refresh_tokens (session ∷ []) (set_users (ada ∷ []) two_accounts)

abbrev again : RefreshCommand
again = record { refresh_token = "r0"; ip_address = none; user_agent = none }

abbrev after : World
after = (refresh tokens again before).1

abbrev response : AuthResponse
response = record {
  access_token = "jwt";
  refresh_token = "transfer id";
  access_token_expires_in = 900;
  user = reconstitute ada;
}

refreshes : refresh tokens again before ≡ (ok response, after)
unfolding refresh refresh_found refresh_active rotate find_by_token_hash find_user_by_id read_user
    to_domain create_email create_phone_number from_hash assert_can_attempt_login save_token revoke
    issue query random_text is_digit
refreshes = refl

refresh-refresh-Refused_example :
    (t : RefreshTokenRecord) × (find
        (has_hash (tokens.hash_refresh_token "r0"))
        before.db.refresh_tokens
      ≡ some t)
    × Refused t.family (refresh tokens again after)
refresh-refresh-Refused_example =
    refresh-refresh-Refused tokens again again before after after response refl refreshes refl refl

login-AllGuarded_example :
    let wrong : LoginCommand = record {
      email = "Ada@kudi.ng";
      password = "a guess";
      ip_address = none;
      user_agent = none;
    } in
    AllGuarded (login hasher tokens wrong before).1
login-AllGuarded_example =
    login-AllGuarded hasher tokens
      (record { email = "Ada@kudi.ng"; password = "a guess"; ip_address = none; user_agent = none })
      before (inl (omega arith), tt)

assert_can_attempt_login-record_failed_login_example :
    let v = record_failed_login 7 none (reconstitute ada) in
    (v.status ≡ locked)
    × (assert_can_attempt_login 1000000 v ≡ (
        if ltb 1000000 (7 + lockout_duration_ms)
        then err (account_locked (7 + lockout_duration_ms))
        else ok (unlock 1000000 v)))
    × ((unlock 1000000 v).status ≡ active)
    × ((unlock 1000000 v).failed_login_attempts ≡ 0)
assert_can_attempt_login-record_failed_login_example =
    assert_can_attempt_login-record_failed_login 7 1000000 none (reconstitute ada) (omega arith)

abbrev new_password : ChangePasswordCommand
new_password = record {
  user_id = "ada";
  current_password = "first-secret";
  new_password = "second-secret";
}

abbrev changed : World
changed = (change_password_handler hasher tokens new_password before).1

changes : change_password_handler hasher tokens new_password before ≡ (ok tt, changed)
unfolding change_password_handler change_password_of find_user_by_id read_user to_domain
    create_email create_phone_number from_hash create_plain_password change_password save_user
    to_persistence revoke_where query publish_all is_digit
changes = refl

change_password_handler-IsChanged_example :
    (u : User) × ((find_user_by_id "ada" before).0 ≡ ok (some u))
    × IsChanged hasher new_password u (find_user_by_id "ada" before).1 changed
    × ((find_user_by_id "ada" before).1.db ≡ before.db)
change_password_handler-IsChanged_example =
    change_password_handler-IsChanged hasher tokens new_password before changes
