-- ===== src/Identity/Repository/Guarded.antt =====
-- The rows of the users under the lockout.
use kudi_ai.Common.{
  ◌≡◌, refl, arith, ℕ, ◌+◌, ◌<◌, String, Bool, true, false, Option, none, some, List, [], ◌∷◌, ◌++◌,
  All, inl, inr, ◌⊎◌, Bool-cases, ltb, if◌then◌else◌,
}
use kudi_ai.Shared.Users.{locked}
use kudi_ai.Shared.Errors.{ok, Result-cases}
use kudi_ai.Database.{World, query-frame}
use kudi_ai.Database.Schema.{UserRecord, RefreshTokenRecord}
use kudi_ai.Database.Tables.{find, any, update_many}
use kudi_ai.Identity.User.{
  User, to_domain, to_persistence, assert_can_attempt_login, record_failed_login,
  record_successful_login,
}
use kudi_ai.Identity.Repository.{
  find_by_email, read_user, save_user, save_token, upsert_user, has_id, has_email,
}

-- Fewer than five failed attempts, or locked.
abbrev pub IsGuarded : UserRecord → Type 0
IsGuarded r = (r.failed_login_attempts < 5) ⊎ (r.status ≡ locked)

abbrev pub AllGuarded : World → Type 0
AllGuarded w = All IsGuarded w.db.users

pub All-find :
    (test : UserRecord → Bool) (rows : List UserRecord) (r : UserRecord)
    → All IsGuarded rows
    → find test rows ≡ some r
    → IsGuarded r
All-find test [] r a f = absurd (ground arith)
All-find test (s ∷ rows) r (g, a) f = elim (Bool-cases (test s)) [
  | inl e ↦ let equal : s ≡ r = ground arith in rw (← equal) g
  | inr e ↦ All-find test rows r a (ground arith)
]

pub All-update_many :
    (test : UserRecord → Bool) (new : UserRecord) (rows : List UserRecord)
    → IsGuarded new
    → All IsGuarded rows
    → All IsGuarded (update_many test new rows)
All-update_many test new [] g a = tt
All-update_many test new (r ∷ rows) g (h, a) = (by_test (test r), All-update_many test new rows g a)
  where
    by_test : (b : Bool) → IsGuarded (if b then new else r)
    by_test true = g
    by_test false = h

pub All-append :
    (new : UserRecord) (rows : List UserRecord)
    → IsGuarded new
    → All IsGuarded rows
    → All IsGuarded (rows ++ new ∷ [])
All-append new [] g a = (g, tt)
All-append new (r ∷ rows) g (h, a) = (h, All-append new rows g a)

pub upsert_user-AllGuarded :
    (new : UserRecord) (rows : List UserRecord)
    → IsGuarded new
    → All IsGuarded rows
    → All IsGuarded (upsert_user new rows)
upsert_user-AllGuarded new rows g a = by_test (any (has_id new.id) rows)
  where
    by_test :
        (b : Bool)
        → All IsGuarded (if b then update_many (has_id new.id) new rows else rows ++ new ∷ [])
    by_test true = All-update_many (has_id new.id) new rows g a
    by_test false = All-append new rows g a

pub AllGuarded-of_users : (v w : World) → AllGuarded v → w.db.users ≡ v.db.users → AllGuarded w
AllGuarded-of_users v w a e = rw e a

pub save_user-AllGuarded :
    (u : User) (w : World) → IsGuarded u.props → AllGuarded w → AllGuarded (save_user u w).1
unfolding save_user to_persistence
save_user-AllGuarded u w g a =
    let kept = query-frame w in
    elim (Result-cases (save_user u w).0) [
      | inr (x, e) ↦ AllGuarded-of_users w (save_user u w).1 a (ground arith)
      | inl (_, e) ↦
          let same : (save_user u w).1.db.users ≡ upsert_user u.props w.db.users = ground arith in
          rw same (upsert_user-AllGuarded u.props w.db.users g a)
    ]

pub assert_can_attempt_login-eq_ok :
    (now : ℕ) (u v : User)
    → IsGuarded u.props
    → assert_can_attempt_login now u ≡ ok v
    → v.failed_login_attempts < 5
unfolding assert_can_attempt_login
assert_can_attempt_login-eq_ok now u v (inl g) h = ground arith
assert_can_attempt_login-eq_ok now u v (inr g) h = ground arith

pub record_failed_login-IsGuarded :
    (now : ℕ) (ip : Option String) (u : User)
    → u.failed_login_attempts < 5
    → IsGuarded (record_failed_login now ip u).props
unfolding record_failed_login
record_failed_login-IsGuarded now ip u g = elim (Bool-cases (ltb (u.failed_login_attempts + 1) 5)) [
  | inl e ↦ inl (ground arith)
  | inr e ↦ inr (ground arith)
]

pub record_successful_login-IsGuarded :
    (now : ℕ) (ip agent : Option String) (u : User)
    → IsGuarded (record_successful_login now ip agent u).props
unfolding record_successful_login
record_successful_login-IsGuarded now ip agent u = inl (omega arith)

pub to_domain-IsGuarded :
    (r : UserRecord) (u : User) → to_domain r ≡ ok u → IsGuarded r → IsGuarded u.props
unfolding to_domain
to_domain-IsGuarded r u h (inl g) = inl (ground arith)
to_domain-IsGuarded r u h (inr g) = inr (ground arith)

pub find_by_email-users :
    (email : String) (w : World) → (find_by_email email w).1.db.users ≡ w.db.users
unfolding find_by_email
find_by_email-users email w = ground (arith, query-frame w)

pub find_by_email-IsGuarded :
    (email : String) (w : World) (u : User)
    → AllGuarded w
    → (find_by_email email w).0 ≡ ok (some u)
    → IsGuarded u.props
unfolding find_by_email read_user
find_by_email-IsGuarded email w u a h =
    by_row (find (has_email email) w.db.users) refl (ground (arith, query-frame w))
  where
    by_row :
        (o : Option UserRecord)
        → find (has_email email) w.db.users ≡ o
        → read_user o ≡ ok (some u)
        → IsGuarded u.props
    by_row none f e = absurd (ground arith)
    by_row (some r) f e = elim (Result-cases (to_domain r)) [
      | inr (x, g) ↦ absurd (ground arith)
      | inl (v, g) ↦
          let equal : v ≡ u = ground arith in
          rw (← equal) (to_domain-IsGuarded r v g (All-find (has_email email) w.db.users r a f))
    ]

pub save_token-users :
    (t : RefreshTokenRecord) (w : World) → (save_token t w).1.db.users ≡ w.db.users
unfolding save_token
save_token-users t w = ground (arith, query-frame w)
