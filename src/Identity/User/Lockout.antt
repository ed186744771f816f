-- ===== src/Identity/User/Lockout.antt =====
-- The lock after the fifth failed attempt, and its end.
use kudi_ai.Common.{◌≡◌, refl, arith, ℕ, ◌+◌, ◌≤◌, String, Option, ltb, if◌then◌else◌}
use kudi_ai.Shared.Users.{active, locked}
use kudi_ai.Shared.Errors.{ok, err, account_locked}
use kudi_ai.Identity.User.{
  User, unlock, lockout_duration_ms, assert_can_attempt_login, record_failed_login,
}

-- A user of any status, at a failed attempt with four or more before it: locked, no attempt is
-- allowed for the next 15 minutes; the first one from then on is, with no failed attempts and the
-- status ACTIVE, whatever the status was.
pub assert_can_attempt_login-record_failed_login :
    (now later : ℕ) (ip_address : Option String) (u : User)
    → 4 ≤ u.failed_login_attempts
    → let v = record_failed_login now ip_address u in
      (v.status ≡ locked)
      × (assert_can_attempt_login later v ≡ (
          if ltb later (now + lockout_duration_ms)
          then err (account_locked (now + lockout_duration_ms))
          else ok (unlock later v)))
      × ((unlock later v).status ≡ active)
      × ((unlock later v).failed_login_attempts ≡ 0)
unfolding assert_can_attempt_login record_failed_login
assert_can_attempt_login-record_failed_login now later ip_address u h =
    (ground arith, ground arith, refl, refl)
