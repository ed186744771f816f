-- ===== src/Identity/Sessions.antt =====
-- The handlers of modules/identity/application/commands for sessions: login, refresh-token, logout
-- and change-password. Nest's NotFoundException is a failure with its message. The response holds
-- the user, whose fields the source copies.
pub mod Lockout
pub mod Rotation
pub mod Ending
mod Tests
use kudi_ai.Common.{String, ℕ, ◌+◌, ◌*◌, Bool, true, false, not, Option, none, some, if◌then◌else◌}
use kudi_ai.Shared.Errors.{invalid_credentials, invalid_refresh_token, failure}
use kudi_ai.Shared.Action.{Action, pure, throw, lift, gets, throw_if, ◌>>=◌, ◌>>◌}
use kudi_ai.Database.{World, random_text, publish_all}
use kudi_ai.Database.Schema.{RefreshTokenRecord}
use kudi_ai.Identity.Values.{create_email, create_plain_password, from_hash}
use kudi_ai.Identity.User.{
  User, assert_can_attempt_login, record_successful_login, record_failed_login, change_password,
  pull_domain_events,
}
use kudi_ai.Identity.RefreshToken.{issue, is_expired, is_revoked, revoke}
use kudi_ai.Identity.Repository.{
  find_user_by_id, find_by_email, save_user, find_by_token_hash, save_token, revoke_family,
  revoke_all_for_user,
}
use kudi_ai.Identity.Services.{PasswordHasher, TokenService}

-- REFRESH_TOKEN_TTL_DAYS, in milliseconds
abbrev pub refresh_token_ttl_ms : ℕ
refresh_token_ttl_ms = 7 * 24 * 60 * 60 * 1000

-- LoginCommand
pub record LoginCommand : Type 0 where
  pub email : String
  pub password : String
  pub ip_address : Option String
  pub user_agent : Option String

-- RefreshAccessTokenCommand
pub record RefreshCommand : Type 0 where
  pub refresh_token : String
  pub ip_address : Option String
  pub user_agent : Option String

-- ChangePasswordCommand
pub record ChangePasswordCommand : Type 0 where
  pub user_id : String
  pub current_password : String
  pub new_password : String

-- AuthResponseDto
pub record AuthResponse : Type 0 where
  pub access_token : String
  pub refresh_token : String
  pub access_token_expires_in : ℕ
  pub user : User

-- A user who must be there.
abbrev pub with_user :
    {A : Type 0} → Option User → Action World A → (User → Action World A) → Action World A
with_user none absent found = absent
with_user (some u) absent found = found u

module _ (hasher : PasswordHasher) (tokens : TokenService) where
  -- The password does not match.
  unfoldable pub reject_login : LoginCommand → User → Action World AuthResponse
  reject_login c u = do
    now ← gets (λ w. w.now)
    save_user (record_failed_login now c.ip_address u)
    publish_all (pull_domain_events (record_failed_login now c.ip_address u)).0
    throw invalid_credentials

  -- The password matches.
  unfoldable pub accept_login : LoginCommand → User → Action World AuthResponse
  accept_login c u = do
    now ← gets (λ w. w.now)
    let v = record_successful_login now c.ip_address c.user_agent u
    save_user v
    signed ← lift (tokens.sign_access_token v.id v.email v.role)
    raw ← random_text
    id ← random_text
    family ← random_text
    save_token (
        issue id family now (record {
          user_id = v.id;
          token_hash = tokens.hash_refresh_token raw;
          expires_at = now + refresh_token_ttl_ms;
          ip_address = c.ip_address;
          user_agent = c.user_agent;
        }))
    publish_all (pull_domain_events v).0
    pure (record {
      access_token = signed.0;
      refresh_token = raw;
      access_token_expires_in = signed.1;
      user = (pull_domain_events v).1;
    })

  -- The user was found.
  unfoldable pub login_found : LoginCommand → User → Action World AuthResponse
  login_found c found = do
    now ← gets (λ w. w.now)
    u ← lift (assert_can_attempt_login now found)
    matches ← lift (hasher.compare c.password u.password_hash)
    if matches then accept_login c u else reject_login c u

  -- The comparison that costs the same where no user was found.
  unfoldable pub login_unknown : LoginCommand → Action World AuthResponse
  login_unknown c = do
    _ ← lift (hasher.compare c.password "$2b$12$invalidsaltinvalidsaltinvalidsalt")
    throw invalid_credentials

  -- `LoginHandler.execute`
  unfoldable pub login : LoginCommand → Action World AuthResponse
  login c = do
    email ← lift (create_email c.email)
    found ← find_by_email email
    with_user found (login_unknown c) (login_found c)

  -- `ChangePasswordHandler.execute`, for a user that was found
  unfoldable pub change_password_of : ChangePasswordCommand → User → Action World (Unit {0})
  change_password_of c u = do
    matches ← lift (hasher.compare c.current_password u.password_hash)
    throw_if (not matches) invalid_credentials
    plain ← lift (create_plain_password c.new_password)
    raw_hash ← lift (hasher.hash plain)
    hash ← lift (from_hash raw_hash)
    now ← gets (λ w. w.now)
    save_user (change_password now hash u)
    revoke_all_for_user u.id
    publish_all (pull_domain_events (change_password now hash u)).0

  unfoldable pub change_password_handler : ChangePasswordCommand → Action World (Unit {0})
  change_password_handler c = do
    found ← find_user_by_id c.user_id
    with_user found (throw (failure "User not found")) (change_password_of c)

module _ (tokens : TokenService) where
  -- The rotation of an active token of this user.
  unfoldable pub rotate : RefreshCommand → RefreshTokenRecord → User → Action World AuthResponse
  rotate c t u = do
    now ← gets (λ w. w.now)
    raw ← random_text
    id ← random_text
    save_token (revoke now (some id) t)
    save_token (
        issue id t.family now (record {
          user_id = u.id;
          token_hash = tokens.hash_refresh_token raw;
          expires_at = now + refresh_token_ttl_ms;
          ip_address = c.ip_address;
          user_agent = c.user_agent;
        }))
    signed ← lift (tokens.sign_access_token u.id u.email u.role)
    pure (record {
      access_token = signed.0;
      refresh_token = raw;
      access_token_expires_in = signed.1;
      user = u;
    })

  -- A token that is neither revoked nor expired.
  unfoldable pub refresh_active : RefreshCommand → RefreshTokenRecord → Action World AuthResponse
  refresh_active c t = do
    found ← find_user_by_id t.user_id
    with_user found (throw invalid_refresh_token) (λ loaded. do
      now ← gets (λ w. w.now)
      u ← lift (assert_can_attempt_login now loaded)
      rotate c t u)

  -- The reuse of a revoked token.
  unfoldable pub refuse_reuse : RefreshTokenRecord → Action World AuthResponse
  refuse_reuse t = do revoke_family t.family; throw invalid_refresh_token

  unfoldable pub refresh_found :
      RefreshCommand → Option RefreshTokenRecord → Action World AuthResponse
  refresh_found c none = throw invalid_refresh_token
  refresh_found c (some t) = if is_revoked t then refuse_reuse t else (do
    now ← gets (λ w. w.now)
    throw_if (is_expired now t) invalid_refresh_token
    refresh_active c t)

  -- `RefreshAccessTokenHandler.execute`
  unfoldable pub refresh : RefreshCommand → Action World AuthResponse
  refresh c = do
    existing ← find_by_token_hash (tokens.hash_refresh_token c.refresh_token)
    refresh_found c existing

  unfoldable pub logout_found : Option RefreshTokenRecord → Action World (Unit {0})
  logout_found none = pure tt
  logout_found (some t) = if is_revoked t then pure tt else revoke_family t.family

  -- `LogoutHandler.execute`
  unfoldable pub logout : (refresh_token : String) → Action World (Unit {0})
  logout refresh_token = do
    existing ← find_by_token_hash (tokens.hash_refresh_token refresh_token)
    logout_found existing
