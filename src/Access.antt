-- ===== src/Access.antt =====
-- The permissions of a user: app/services/permissions.py and app/services/permission_engine.py,
-- with the parts of app/database/models.py that they read. A UUID is a number.
pub mod Strings
pub mod Catalog
pub mod Migration
pub mod Documents
pub mod Guard
pub mod Skills
pub mod Required
mod Examples
use arkon.Base.{
  ℕ, ◌≤◌, String, Bool, true, false, not, ◌&&◌, ◌||◌, Option, none, some, List, [], ◌∷◌, ◌++◌, any,
  elem, find, leb, ◌==◌, str_eq, str_elem, if◌then◌else◌,
}
use Strings.{scoped}
use Catalog.{all_permissions, employee_default_permissions, migrate}

-- A custom role; the column of permissions may be null.
pub record Role : Type 0 where
  pub permissions : Option (List String)

pub record Employee : Type 0 where
  pub id : ℕ
  pub name : String
  pub email : String
  pub role : String
  pub custom_role : Option Role
  pub department_ids : List ℕ
  pub is_active : Bool

-- A row of `project_members`.
pub record ProjectMember : Type 0 where
  pub project_id : ℕ
  pub employee_id : ℕ
  pub role : String

abbrev pub is_admin : Employee → Bool
is_admin user = str_eq user.role "admin"

-- `stored or []`
abbrev pub or_empty {ℓ} : {A : Type ℓ} → Option (List A) → List A
or_empty none = []
or_empty (some xs) = xs

unfoldable pub role_permissions : Option Role → List String
role_permissions none = employee_default_permissions
role_permissions (some r) = migrate (or_empty r.permissions)

-- The set of permissions, as a list: only membership is read of it.
unfoldable pub get_user_permissions : Employee → List String
get_user_permissions user =
    if is_admin user then all_permissions else role_permissions user.custom_role

unfoldable pub has_permission : List String → String → String → String → Bool
has_permission permissions resource action scope =
    let perm_all = scoped resource action "all" in
    let perm_own = scoped resource action "own_dept" in
    if str_eq scope "all"
    then str_elem perm_all permissions
    else if str_eq scope "own_dept"
    then str_elem perm_all permissions || str_elem perm_own permissions
    else str_elem perm_all permissions || str_elem perm_own permissions

unfoldable pub has_any_permission : List String → String → String → Bool
has_any_permission permissions resource action = has_permission permissions resource action "any"

unfoldable pub get_scope_level : List String → String → String → Option String
get_scope_level permissions resource action =
    if str_elem (scoped resource action "all") permissions
    then some "all"
    else if str_elem (scoped resource action "own_dept") permissions
    then some "own_dept"
    else none

-- `bool(user_dept_ids & dept_ids)`
abbrev pub overlaps : List ℕ → List ℕ → Bool
overlaps xs ys = any (λ d. elem d xs) ys

abbrev pub is_empty {ℓ} : {A : Type ℓ} → List A → Bool
is_empty [] = true
is_empty (_ ∷ _) = false

-- `can_access_document`; the source is given by the departments of its rows in
-- `source_departments`.
unfoldable pub can_access_document : Employee → List ℕ → String → Bool
can_access_document user source_dept_ids action =
    let permissions = get_user_permissions user in
    if is_admin user
    then true
    else if str_elem (scoped "doc" action "all") permissions
    then true
    else if not (str_elem (scoped "doc" action "own_dept") permissions)
    then false
    else if is_empty source_dept_ids
    then true
    else overlaps user.department_ids source_dept_ids

-- (needs_filter, allowed_dept_ids)
unfoldable pub build_document_filter : Employee → String → Bool × Option (List ℕ)
build_document_filter user action =
    let permissions = get_user_permissions user in
    if is_admin user
    then (false, some [])
    else if str_elem (scoped "doc" action "all") permissions
    then (false, some [])
    else if str_elem (scoped "doc" action "own_dept") permissions
    then (true, some user.department_ids)
    else (true, none)

-- `can_access_skill`; the skill is given by its departments.
unfoldable pub can_access_skill : Employee → List ℕ → String → Bool
can_access_skill user skill_dept_ids action =
    let permissions = get_user_permissions user in
    if is_admin user
    then true
    else if str_elem (scoped "skill" action "all") permissions
    then true
    else if is_empty skill_dept_ids
    then true
    else overlaps user.department_ids skill_dept_ids

unfoldable pub build_skill_filter : Employee → String → Bool × Option (List ℕ)
build_skill_filter user action =
    let permissions = get_user_permissions user in
    if is_admin user
    then (false, some [])
    else if str_elem (scoped "skill" action "all") permissions
    then (false, some [])
    else if str_elem (scoped "skill" action "own_dept") permissions
    then (true, some user.department_ids)
    else (true, none)

-- WorkspaceRole and WORKSPACE_ROLE_HIERARCHY
pub data WorkspaceRole : Type 0 where
  viewer contributor editor admin : WorkspaceRole

-- `WorkspaceRole(s)`: `none` is the ValueError
unfoldable pub parse_role : String → Option WorkspaceRole
parse_role s =
    if str_eq s "viewer"
    then some WorkspaceRole.viewer
    else if str_eq s "contributor"
    then some WorkspaceRole.contributor
    else if str_eq s "editor"
    then some WorkspaceRole.editor
    else if str_eq s "admin"
    then some WorkspaceRole.admin
    else none

abbrev pub level : WorkspaceRole → ℕ
level WorkspaceRole.viewer = 0
level WorkspaceRole.contributor = 1
level WorkspaceRole.editor = 2
level WorkspaceRole.admin = 3

abbrev pub at_least : Option WorkspaceRole → Option WorkspaceRole → Bool
at_least (some member) (some required) = leb (level required) (level member)
at_least _ _ = false

unfoldable pub workspace_role_can : String → String → Bool
workspace_role_can member_role required_role =
    at_least (parse_role member_role) (parse_role required_role)

-- The row of a member; (project_id, employee_id) is the primary key.
unfoldable pub member_role : List ProjectMember → ℕ → ℕ → Option String
member_role rows workspace_id user_id =
    elim (find (λ m. m.project_id == workspace_id && m.employee_id == user_id) rows) [
      | none ↦ none
      | some m ↦ some m.role
    ]

abbrev pub is_some {ℓ} : {A : Type ℓ} → Option A → Bool
is_some none = false
is_some (some _) = true

unfoldable pub can_access_workspace : List ProjectMember → Employee → ℕ → Bool
can_access_workspace rows user workspace_id =
    if is_admin user then true else is_some (member_role rows workspace_id user.id)

unfoldable pub get_workspace_role : List ProjectMember → Employee → ℕ → Option String
get_workspace_role rows user workspace_id =
    if is_admin user then some "admin" else member_role rows workspace_id user.id
