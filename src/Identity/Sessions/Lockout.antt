-- ===== src/Identity/Sessions/Lockout.antt =====
-- The rows of the users under a login.
use kudi_ai.Common.{◌≡◌, refl, ap, ◌∙◌, arith, ◌+◌, ◌<◌, Option, none, some, inl, inr, Bool-cases}
use kudi_ai.Shared.Errors.{ok, Result-cases}
use kudi_ai.Database.{World, random_text, publish_all}
use kudi_ai.Identity.Values.{create_email}
use kudi_ai.Identity.User.{
  User, assert_can_attempt_login, record_failed_login, record_successful_login,
}
use kudi_ai.Identity.Repository.{find_by_email, save_user}
use kudi_ai.Identity.RefreshToken.{issue}
use kudi_ai.Identity.Repository.Guarded.{
  IsGuarded, AllGuarded, AllGuarded-of_users, save_user-AllGuarded, assert_can_attempt_login-eq_ok,
  record_failed_login-IsGuarded, record_successful_login-IsGuarded, find_by_email-users,
  find_by_email-IsGuarded, save_token-users,
}
use kudi_ai.Identity.Services.{PasswordHasher, TokenService}
use kudi_ai.Identity.Sessions.{
  LoginCommand, reject_login, accept_login, login_found, login_unknown, login, with_user,
  refresh_token_ttl_ms,
}

module _ (hasher : PasswordHasher) (tokens : TokenService) where
  reject_login-AllGuarded :
      (c : LoginCommand) (u : User) (w : World)
      → u.failed_login_attempts < 5
      → AllGuarded w
      → AllGuarded (reject_login hasher tokens c u w).1
  unfolding reject_login publish_all
  reject_login-AllGuarded c u w g a =
      let v = record_failed_login w.now c.ip_address u in
      AllGuarded-of_users (save_user v w).1 (reject_login hasher tokens c u w).1
        (save_user-AllGuarded v w (record_failed_login-IsGuarded w.now c.ip_address u g) a)
        (ground arith)

  accept_login-AllGuarded :
      (c : LoginCommand) (u : User) (w : World)
      → AllGuarded w
      → AllGuarded (accept_login hasher tokens c u w).1
  unfolding accept_login publish_all random_text
  accept_login-AllGuarded c u w a =
      let v = record_successful_login w.now c.ip_address c.user_agent u in
      let w₁ = (save_user v w).1 in
      AllGuarded-of_users w₁ (accept_login hasher tokens c u w).1
        (save_user-AllGuarded v w
          (record_successful_login-IsGuarded w.now c.ip_address c.user_agent u) a)
        (elim (Result-cases (save_user v w).0) [
          | inr (x, e) ↦ ground arith
          | inl (_, e) ↦ elim (Result-cases (tokens.sign_access_token v.id v.email v.role)) [
            | inr (x, f) ↦ ground arith
            | inl (signed, f) ↦
                let w₂ : World = record w₁ { drawn = w₁.drawn + 1 + 1 + 1 } in
                let t =
                  issue (w₁.random (w₁.drawn + 1)) (w₁.random (w₁.drawn + 1 + 1)) w.now (record {
                    user_id = v.id;
                    token_hash = tokens.hash_refresh_token (w₁.random w₁.drawn);
                    expires_at = w.now + refresh_token_ttl_ms;
                    ip_address = c.ip_address;
                    user_agent = c.user_agent;
                  }) in
                ground (arith, save_token-users t w₂)
          ]
        ])

  login_found-AllGuarded :
      (c : LoginCommand) (u : User) (w : World)
      → IsGuarded u.props
      → AllGuarded w
      → AllGuarded (login_found hasher tokens c u w).1
  unfolding login_found
  login_found-AllGuarded c u w g a = elim (Result-cases (assert_can_attempt_login w.now u)) [
    | inr (x, e) ↦ AllGuarded-of_users w (login_found hasher tokens c u w).1 a (ground arith)
    | inl (v, e) ↦
        let fewer = assert_can_attempt_login-eq_ok w.now u v g e in
        elim (Result-cases (hasher.compare c.password v.password_hash)) [
          | inr (x, f) ↦ AllGuarded-of_users w (login_found hasher tokens c u w).1 a (ground arith)
          | inl (b, f) ↦ elim (Bool-cases b) [
            | inl i ↦
                AllGuarded-of_users (accept_login hasher tokens c v w).1
                  (login_found hasher tokens c u w).1 (accept_login-AllGuarded c v w a)
                  (ground arith)
            | inr i ↦
                AllGuarded-of_users (reject_login hasher tokens c v w).1
                  (login_found hasher tokens c u w).1 (reject_login-AllGuarded c v w fewer a)
                  (ground arith)
          ]
        ]
  ]

  by_found :
      (c : LoginCommand) (o : Option User) (w : World)
      → ((u : User) → o ≡ some u → IsGuarded u.props)
      → AllGuarded w
      → AllGuarded (with_user o (login_unknown hasher tokens c) (login_found hasher tokens c) w).1
  unfolding login_unknown
  by_found c none w g a = AllGuarded-of_users w (login_unknown hasher tokens c w).1 a (ground arith)
  by_found c (some u) w g a = login_found-AllGuarded c u w (g u refl) a

  -- Whatever the hasher, the token service and the calls of the client do: if every user with five
  -- or more failed attempts is LOCKED, that is so after any login.
  pub login-AllGuarded :
      (c : LoginCommand) (w : World) → AllGuarded w → AllGuarded (login hasher tokens c w).1
  unfolding login
  login-AllGuarded c w a = elim (Result-cases (create_email c.email)) [
    | inr (x, e) ↦ AllGuarded-of_users w (login hasher tokens c w).1 a (ground arith)
    | inl (email, e) ↦
        let w₁ = (find_by_email email w).1 in
        let a₁ = AllGuarded-of_users w w₁ a (find_by_email-users email w) in
        elim (Result-cases (find_by_email email w).0) [
          | inr (x, f) ↦ AllGuarded-of_users w₁ (login hasher tokens c w).1 a₁ (ground arith)
          | inl (o, f) ↦
              AllGuarded-of_users
                (with_user o (login_unknown hasher tokens c) (login_found hasher tokens c) w₁).1
                (login hasher tokens c w).1
                (by_found c o w₁ (λ u g. find_by_email-IsGuarded email w u a (f ∙ ap ok g)) a₁)
                (ground arith)
        ]
  ]
