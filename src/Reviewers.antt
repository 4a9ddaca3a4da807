-- ===== src/Reviewers.antt =====
-- Who may propose and review changes of a wiki page (the helpers of app/routers/wiki_drafts.py),
-- and who is told about them (the recipient resolution of app/services/notification_service.py).
pub mod Told
pub mod Queue
mod Examples
use arkon.Base.{
  ℕ, String, Bool, true, false, ◌&&◌, ◌||◌, Option, none, some, List, [], ◌∷◌, ◌++◌, map, any, elem,
  keep, find, ◌==◌, str_eq, str_elem, if◌then◌else◌,
}
use arkon.Access.{
  Role, Employee, ProjectMember, is_admin, or_empty, get_user_permissions, has_any_permission,
  workspace_role_can, get_workspace_role,
}
use arkon.Notify.Recipients.{dedup}

-- The scope of a page: `scope_type` and `scope_id`.
pub record Scope : Type 0 where
  pub scope_type : String
  pub scope_id : Option ℕ

-- The tables that these queries read.
pub record Directory : Type 0 where
  pub employees : List Employee
  pub members : List ProjectMember

-- `get_workspace_reviewers`
unfoldable pub get_workspace_reviewers : Directory → ℕ → List ℕ
get_workspace_reviewers d workspace_id =
    map (λ m. m.employee_id)
      (keep (λ m. m.project_id == workspace_id && (str_eq m.role "editor" || str_eq m.role "admin"))
        d.members)

-- `Role.permissions @> ["wiki:write:all"]` on the joined role
unfoldable pub grants_write_all : Option Role → Bool
grants_write_all none = false
grants_write_all (some r) = str_elem "wiki:write:all" (or_empty r.permissions)

-- `get_global_reviewers`
unfoldable pub get_global_reviewers : Directory → List ℕ
get_global_reviewers d = dedup (
    map (λ e. e.id) (keep is_admin d.employees)
    ++ map (λ e. e.id) (keep (λ e. grants_write_all e.custom_role) d.employees))

-- the reviewers of a project, if the id is there
unfoldable pub project_reviewers : Directory → Option ℕ → List ℕ
project_reviewers d none = get_global_reviewers d
project_reviewers d (some scope_id) =
    dedup (get_workspace_reviewers d scope_id ++ get_global_reviewers d)

-- `get_reviewers_for_scope`
unfoldable pub get_reviewers_for_scope : Directory → Scope → List ℕ
get_reviewers_for_scope d s =
    if str_eq s.scope_type "project" then project_reviewers d s.scope_id else get_global_reviewers d

-- `bool(role) and workspace_role_can(role, required)`
unfoldable pub role_can : Option String → String → Bool
role_can none required = false
role_can (some role) required = if str_eq role "" then false else workspace_role_can role required

-- `_can_review_scope`, and `_can_review` of the scope of a page
unfoldable pub can_review_scope : Directory → Employee → Scope → Bool
can_review_scope d user s =
    let global = str_elem "wiki:write:all" (get_user_permissions user) in
    if is_admin user
    then true
    else if str_eq s.scope_type "project"
    then elim s.scope_id [
      | none ↦ global
      | some w ↦ role_can (get_workspace_role d.members user w) "editor"
    ]
    else global

-- `_can_propose` of the scope of a page
unfoldable pub can_propose : Directory → Employee → Scope → Bool
can_propose d user s =
    let perms = get_user_permissions user in
    let any_write = has_any_permission perms "wiki" "write" in
    if is_admin user
    then true
    else if str_eq s.scope_type "project"
    then elim s.scope_id [
      | none ↦ any_write
      | some w ↦ role_can (get_workspace_role d.members user w) "contributor"
    ]
    else if str_eq s.scope_type "department"
    then elim s.scope_id [
      | none ↦ any_write
      | some dept ↦
          str_elem "wiki:write:all" perms
          || (str_elem "wiki:write:own_dept" perms && elem dept user.department_ids)
    ]
    else any_write

-- `_build_reviewable_page_filter`, as a test on the scope of a page
unfoldable pub reviewable_page_filter : Directory → Employee → Scope → Bool
reviewable_page_filter d user s =
    if is_admin user
    then true
    else if str_elem "wiki:write:all" (get_user_permissions user)
    then true
    else str_eq s.scope_type "project" && elim s.scope_id [
      | none ↦ false
      | some w ↦
          any
            (λ m.
              m.employee_id == user.id
              && (m.project_id == w && (str_eq m.role "editor" || str_eq m.role "admin")))
            d.members
    ]
