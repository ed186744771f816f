-- ===== src/Identity/Access.antt =====
-- modules/identity/presentation/guards/self-or-admin.guard.ts and the queries of
-- application/queries. Nest's exceptions are failures with their messages; the response is the user.
use kudi_ai.Common.{String, Bool, true, false, not, ◌&&◌, ◌==◌, Option, none, some}
use kudi_ai.Shared.Users.{UserRole, customer, support_agent, compliance_officer, admin, super_admin}
use kudi_ai.Shared.Errors.{Result, ok, err, failure, throw_if, ◌>>◌}
use kudi_ai.Shared.Action.{Action, pure, throw}
use kudi_ai.Shared.Action as Actions
use kudi_ai.Database.{World}
use kudi_ai.Identity.User.{User}
use kudi_ai.Identity.Repository.{find_user_by_id}
use kudi_ai.Identity.Sessions.{with_user}

-- `request.user`
pub record Caller : Type 0 where
  pub sub : String
  pub role : UserRole

-- `ADMIN_ROLES.includes`
abbrev pub is_admin : UserRole → Bool
is_admin customer = false
is_admin support_agent = false
is_admin compliance_officer = false
is_admin admin = true
is_admin super_admin = true

-- `SelfOrAdminGuard.canActivate`
unfoldable pub can_activate : Option Caller → (requested_user_id : String) → Result Bool
can_activate none requested = err (failure "Authentication required")
can_activate (some caller) requested = do
  throw_if (not (caller.sub == requested) && not (is_admin caller.role))
      (failure "You may only access your own resource")
  ok true

-- `GetUserByIdHandler.execute` and `GetUserProfileHandler.execute`
unfoldable pub get_user : (user_id : String) → Action World User
get_user user_id =
    Actions.◌>>=◌ (find_user_by_id user_id)
      λ found. with_user found (throw (failure "User not found")) pure
