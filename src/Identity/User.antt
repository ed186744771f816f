-- ===== src/Identity/User.antt =====
-- modules/identity/domain/entities/user.entity.ts and infrastructure/mappers/user.mapper.ts. The
-- props are the columns of the table. One reading of the clock serves a call.
pub mod Lockout
use kudi_ai.Common.{
  String, ℕ, ◌+◌, ◌*◌, Bool, Option, none, some, List, [], ◌∷◌, ◌++◌, leb, ltb, if◌then◌else◌,
}
use kudi_ai.Shared.Users.{
  UserRole, UserStatus, customer, active, locked, suspended, deactivated, pending_verification,
}
use kudi_ai.Shared.Errors.{Result, ok, err, ◌>>=◌, ◌>>◌, throw_if, account_locked, user_not_active}
use kudi_ai.Shared.Events.{
  DomainEvent, user_registered, user_logged_in, user_login_failed, user_account_locked,
  password_changed,
}
use kudi_ai.Database.Schema.{UserRecord}
use kudi_ai.Identity.Values.{create_email, create_phone_number, from_hash}

-- MAX_FAILED_LOGIN_ATTEMPTS, LOCKOUT_DURATION_MS
abbrev pub max_failed_login_attempts : ℕ
max_failed_login_attempts = 5

abbrev pub lockout_duration_ms : ℕ
lockout_duration_ms = 15 * 60 * 1000

pub record User : Type 0 where
  pub props : UserRecord
  pub open props use *
  pub domain_events : List DomainEvent

abbrev pub reconstitute : UserRecord → User
reconstitute props = record { props = props; domain_events = [] }

abbrev pub add_domain_event : DomainEvent → User → User
add_domain_event event u = record u { domain_events = u.domain_events ++ event ∷ [] }

pub record Registration : Type 0 where
  pub email : String
  pub phone_number : String
  pub password_hash : String
  pub first_name : String
  pub last_name : String

-- `User.register`, whose `role` no caller gives: `id` is the `randomUUID()` of the call.
unfoldable pub register : (id : String) (now : ℕ) → Registration → User
register id now p = record {
  props = record {
    id = id;
    email = p.email;
    phone_number = p.phone_number;
    password_hash = p.password_hash;
    first_name = p.first_name;
    last_name = p.last_name;
    role = customer;
    status = pending_verification;
    failed_login_attempts = 0;
    locked_until = none;
    last_login_at = none;
    created_at = now;
    updated_at = now;
  };
  domain_events = user_registered id p.email customer ∷ [];
}

-- The lock has ended: the status is ACTIVE again.
abbrev pub unlock : ℕ → User → User
unlock now u = record u {
  props = record u.props {
    status = active;
    failed_login_attempts = 0;
    locked_until = none;
    updated_at = now;
  };
}

-- `lockedUntil && lockedUntil > new Date()`
abbrev pub check_lock : ℕ → Option ℕ → Result (Unit {0})
check_lock now none = ok tt
check_lock now (some t) = throw_if (ltb now t) (account_locked t)

unfoldable pub assert_can_attempt_login : ℕ → User → Result User
assert_can_attempt_login now u = elim u.status [
  | pending_verification ↦ ok u
  | active ↦ ok u
  | suspended ↦ err (user_not_active u.status)
  | locked ↦ (do check_lock now u.locked_until; ok (unlock now u))
  | deactivated ↦ err (user_not_active u.status)
]

-- `if (status === LOCKED) status = ACTIVE`
abbrev pub unlocked_status : UserStatus → UserStatus
unlocked_status pending_verification = pending_verification
unlocked_status active = active
unlocked_status suspended = suspended
unlocked_status locked = active
unlocked_status deactivated = deactivated

unfoldable pub record_successful_login : ℕ → (ip_address user_agent : Option String) → User → User
record_successful_login now ip_address user_agent u =
    add_domain_event (user_logged_in u.id ip_address user_agent) (record u {
      props = record u.props {
        failed_login_attempts = 0;
        locked_until = none;
        status = unlocked_status u.status;
        last_login_at = some now;
        updated_at = now;
      };
    })

-- One more failed attempt.
abbrev pub count_failure : ℕ → Option String → User → User
count_failure now ip_address u =
    add_domain_event (user_login_failed u.id (u.failed_login_attempts + 1) ip_address) (record u {
      props = record u.props {
        failed_login_attempts = u.failed_login_attempts + 1;
        updated_at = now;
      };
    })

abbrev pub lock : ℕ → User → User
lock now u = add_domain_event (user_account_locked u.id (now + lockout_duration_ms)) (record u {
  props = record u.props { status = locked; locked_until = some (now + lockout_duration_ms) };
})

unfoldable pub record_failed_login : ℕ → (ip_address : Option String) → User → User
record_failed_login now ip_address u =
    let counted = count_failure now ip_address u in
    if leb max_failed_login_attempts counted.failed_login_attempts
    then lock now counted
    else counted

unfoldable pub change_password : ℕ → (new_password_hash : String) → User → User
change_password now hash u =
    add_domain_event (password_changed u.id)
      (record u { props = record u.props { password_hash = hash; updated_at = now } })

-- The events, and the aggregate without them.
unfoldable pub pull_domain_events : User → List DomainEvent × User
pull_domain_events u = (u.domain_events, record u { domain_events = [] })

-- `UserMapper.toDomain`
unfoldable pub to_domain : UserRecord → Result User
to_domain r = do
  email ← create_email r.email
  phone_number ← create_phone_number r.phone_number
  password_hash ← from_hash r.password_hash
  ok (
      reconstitute
        (record r { email = email; phone_number = phone_number; password_hash = password_hash }))

-- `UserMapper.toPersistence`
unfoldable pub to_persistence : User → UserRecord
to_persistence u = u.props
