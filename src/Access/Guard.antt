-- ===== src/Access/Guard.antt =====
-- `require_permission` of app/services/auth_service.py: the check of one endpoint.
use arkon.Base.{
  ℕ, String, Bool, true, false, ◌&&◌, List, [], ◌∷◌, str_eq, str_elem, if◌then◌else◌, Result, ok,
  err,
}
use arkon.Access.{Employee, is_admin, get_user_permissions, has_any_permission}
use arkon.Access.Strings.{scoped, split}

-- the tests on `parts = permission.split(":")`
unfoldable pub parts_allow : String → List String → List String → Bool
parts_allow permission effective (resource ∷ action ∷ []) =
    has_any_permission effective resource action
parts_allow permission effective (resource ∷ action ∷ scope ∷ []) =
    if str_elem permission effective
    then true
    else str_eq scope "own_dept" && str_elem (scoped resource action "all") effective
parts_allow permission effective _ = false

-- The error is the HTTP status.
unfoldable pub require_permission : String → Employee → Result ℕ Employee
require_permission permission user =
    let effective = get_user_permissions user in
    if is_admin user
    then ok user
    else if str_elem permission effective
    then ok user
    else if parts_allow permission effective (split permission)
    then ok user
    else err 403
