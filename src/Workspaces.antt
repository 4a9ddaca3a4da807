-- ===== src/Workspaces.antt =====
-- Workspaces, their members and sources: app/routers/projects.py, with the tables of
-- app/database/models.py that it writes. An error is the HTTP status; `uuid` reads a text as an id.
pub mod Sources
pub mod Bulk
pub mod Admins
mod Examples
use arkon.Base.{
  ℕ, suc, ◌+◌, String, Bool, true, false, not, ◌&&◌, ◌||◌, Option, none, some, List, [], ◌∷◌, ◌++◌,
  any, find, keep, elem, leb, ◌==◌, str_eq, if◌then◌else◌, Result, ok, err, ◌>>=◌, ◌>>◌, guard,
}
use arkon.Access.{
  Employee, is_admin, ProjectMember, parse_role, is_some, workspace_role_can, get_workspace_role,
}
use arkon.Identity.{ProjectSource}

pub record Workspace : Type 0 where
  pub id : ℕ
  pub name : String
  pub description : Option String
  pub workspace_type : String
  pub status : String
  pub created_by_id : Option ℕ

-- A source with the columns that its removal from a workspace reads.
pub record OwnedSource : Type 0 where
  pub id : ℕ
  pub scope_type : String
  pub scope_id : Option ℕ

pub record Workspaces : Type 0 where
  pub projects : List Workspace
  pub members : List ProjectMember
  pub employee_ids : List ℕ
  pub sources : List OwnedSource
  pub project_sources : List ProjectSource
  pub next_id : ℕ

-- `db.get(ProjectMember, (project_id, employee_id))`
abbrev pub is_row : ℕ → ℕ → ProjectMember → Bool
is_row project_id employee_id m = m.project_id == project_id && m.employee_id == employee_id

abbrev pub is_admin_row : ℕ → ProjectMember → Bool
is_admin_row project_id m = m.project_id == project_id && str_eq m.role "admin"

abbrev pub has_project : ℕ → Workspaces → Bool
has_project project_id w = any (λ p. p.id == project_id) w.projects

-- `_get_project_or_404`
unfoldable pub get_project_or_404 : ℕ → Workspaces → Result ℕ (Unit {0})
get_project_or_404 project_id w = guard (has_project project_id w) 404

abbrev pub role_suffices : Option String → String → Bool
role_suffices none min_role = false
role_suffices (some role) min_role = workspace_role_can role min_role

-- `_require_workspace_role`
unfoldable pub require_workspace_role : Workspaces → Employee → ℕ → String → Result ℕ (Unit {0})
require_workspace_role w user project_id min_role =
    guard (role_suffices (get_workspace_role w.members user project_id) min_role) 403

-- `_count_workspace_admins`
unfoldable pub count_admins : ℕ → List ProjectMember → ℕ
count_admins project_id [] = 0
count_admins project_id (m ∷ ms) =
    (if is_admin_row project_id m then 1 else 0) + count_admins project_id ms

-- `body.workspace_type or "project"`
abbrev pub type_or_project : Option String → String
type_or_project none = "project"
type_or_project (some t) = if str_eq t "" then "project" else t

abbrev pub is_workspace_type : String → Bool
is_workspace_type t = str_eq t "project" || str_eq t "customer"

abbrev pub is_status : String → Bool
is_status s = str_eq s "active" || str_eq s "archived"

unfoldable pub create_project :
    String → Option String → Option String → Employee → Workspaces → Result ℕ Workspaces
create_project name description workspace_type user w = do
  guard (is_admin user) 403
  let ws_type = type_or_project workspace_type
  guard (is_workspace_type ws_type) 400
  let project : Workspace = record {
    id = w.next_id;
    name = name;
    description = description;
    workspace_type = ws_type;
    status = "active";
    created_by_id = some user.id;
  }
  let member : ProjectMember = record {
    project_id = w.next_id;
    employee_id = user.id;
    role = "admin";
  }
  ok (record w {
    projects = w.projects ++ project ∷ [];
    members = w.members ++ member ∷ [];
    next_id = suc w.next_id;
  })

pub record ProjectUpdate : Type 0 where
  pub name : Option String
  pub description : Option String
  pub status : Option String
  pub workspace_type : Option String

abbrev pub given_or {ℓ} : {A : Type ℓ} → Option A → A → A
given_or none old = old
given_or (some new) old = new

abbrev pub valid_or_absent : (String → Bool) → Option String → Bool
valid_or_absent test none = true
valid_or_absent test (some s) = test s

unfoldable pub updated : ProjectUpdate → Workspace → Workspace
updated body p = record p {
  name = given_or body.name p.name;
  description = elim body.description [ none ↦ p.description | some d ↦ some d ];
  workspace_type = given_or body.workspace_type p.workspace_type;
  status = given_or body.status p.status;
}

-- the row of the project with new columns
unfoldable pub update_rows : ℕ → ProjectUpdate → List Workspace → List Workspace
update_rows project_id body [] = []
update_rows project_id body (p ∷ ps) =
    (if p.id == project_id then updated body p else p) ∷ update_rows project_id body ps

unfoldable pub update_project : ℕ → ProjectUpdate → Employee → Workspaces → Result ℕ Workspaces
update_project project_id body user w = do
  get_project_or_404 project_id w
  require_workspace_role w user project_id "admin"
  guard (valid_or_absent is_workspace_type body.workspace_type) 400
  guard (valid_or_absent is_status body.status) 400
  ok (record w { projects = update_rows project_id body w.projects })

-- The members and the linked sources of a deleted project are deleted with it.
unfoldable pub delete_project : ℕ → Employee → Workspaces → Result ℕ Workspaces
delete_project project_id user w = do
  guard (is_admin user) 403
  get_project_or_404 project_id w
  ok (record w {
    projects = keep (λ p. not (p.id == project_id)) w.projects;
    members = keep (λ m. not (m.project_id == project_id)) w.members;
    project_sources = keep (λ s. not (s.project_id == project_id)) w.project_sources;
  })

abbrev pub is_valid_role : String → Bool
is_valid_role role = is_some (parse_role role)

abbrev pub is_member : ℕ → ℕ → Workspaces → Bool
is_member project_id employee_id w = any (is_row project_id employee_id) w.members

abbrev pub with_member : ℕ → ℕ → String → Workspaces → Workspaces
with_member project_id employee_id role w = record w {
  members =
      w.members ++ record { project_id = project_id; employee_id = employee_id; role = role } ∷ [];
}

-- `uuid.UUID(s)`, which raises for a text that is none
abbrev pub or_500 {ℓ} : {A : Type ℓ} → Option A → Result ℕ A
or_500 none = err 500
or_500 (some a) = ok a

module _ (uuid : String → Option ℕ) where
  unfoldable pub add_member : ℕ → String → String → Employee → Workspaces → Result ℕ Workspaces
  add_member project_id raw_id role user w = do
    get_project_or_404 project_id w
    require_workspace_role w user project_id "admin"
    employee_id ← or_500 (uuid raw_id)
    guard (elem employee_id w.employee_ids) 404
    guard (not (is_member project_id employee_id w)) 409
    guard (is_valid_role role) 400
    ok (with_member project_id employee_id role w)

-- the rows without that member
unfoldable pub without_member : ℕ → ℕ → List ProjectMember → List ProjectMember
without_member project_id employee_id ms = keep (λ m. not (is_row project_id employee_id m)) ms

unfoldable pub remove_member : ℕ → ℕ → Employee → Workspaces → Result ℕ Workspaces
remove_member project_id employee_id user w = do
  require_workspace_role w user project_id "admin"
  elim (find (is_row project_id employee_id) w.members) [
    | none ↦ err 404
    | some member ↦
        if str_eq member.role "admin" && leb (count_admins project_id w.members) 1
        then err 400
        else ok (record w { members = without_member project_id employee_id w.members })
  ]

-- the rows with a new role for that member
unfoldable pub with_role : ℕ → ℕ → String → List ProjectMember → List ProjectMember
with_role project_id employee_id role [] = []
with_role project_id employee_id role (m ∷ ms) =
    (if is_row project_id employee_id m then record m { role = role } else m)
    ∷ with_role project_id employee_id role ms

unfoldable pub update_member : ℕ → ℕ → String → Employee → Workspaces → Result ℕ Workspaces
update_member project_id employee_id role user w = do
  require_workspace_role w user project_id "admin"
  elim (find (is_row project_id employee_id) w.members) [
    | none ↦ err 404
    | some member ↦
        if not (is_valid_role role)
        then err 400
        else if (str_eq member.role "admin" && not (str_eq role "admin"))
            && leb (count_admins project_id w.members) 1
        then err 400
        else ok (record w { members = with_role project_id employee_id role w.members })
  ]
