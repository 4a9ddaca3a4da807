-- ===== src/Identity.antt =====
-- The identity behind an MCP token: `ResolvedIdentity`, `_resolve_scope` and `apply_scope_filter`
-- of app/services/mcp_auth_service.py. UUIDs, and their texts, are numbers.
pub mod Effective
pub mod Scope
pub mod Tools
mod Examples
use Prim.Native.String.{compare}
use text.Mathlib.Text.{is_lt}
use arkon.Base.{
  ℕ, String, Bool, true, false, ◌&&◌, ◌||◌, Option, none, some, List, [], ◌∷◌, ◌++◌, map, any, elem,
  keep, ◌==◌, str_eq, str_elem, if◌then◌else◌,
}
use arkon.Access.{
  Employee, ProjectMember, is_admin, get_user_permissions, get_scope_level, parse_role, at_least,
  overlaps, is_empty,
}
use arkon.Access.Catalog.{all_permissions}
use arkon.Access.Documents.{Source, global_clause}

pub record Project : Type 0 where
  pub id : ℕ
  pub status : String

-- A row of `project_sources`.
pub record ProjectSource : Type 0 where
  pub project_id : ℕ
  pub source_id : ℕ

-- The tables that scope resolution reads.
pub record Tables : Type 0 where
  pub sources : List Source
  pub projects : List Project
  pub members : List ProjectMember
  pub project_sources : List ProjectSource

pub record ResolvedIdentity : Type 0 where
  pub employee_id : ℕ
  pub department_ids : List ℕ
  pub allowed_knowledge_types : Option (List String)
  pub allowed_source_ids : Option (List ℕ)
  pub project_source_ids : List ℕ
  pub project_ids : List ℕ
  pub workspace_roles : List (ℕ × String)
  pub is_admin : Bool
  pub permissions : List String

-- `sorted` of a set: in the order of the texts, each once
unfoldable pub insert_sorted : String → List String → List String
insert_sorted p [] = p ∷ []
insert_sorted p (q ∷ qs) =
    let rest = insert_sorted p qs in
    if str_eq p q then q ∷ qs else if is_lt (compare p q) then p ∷ q ∷ qs else q ∷ rest

unfoldable pub sorted_set : List String → List String
sorted_set [] = []
sorted_set (p ∷ ps) = insert_sorted p (sorted_set ps)

-- `get_effective_permissions` of app/services/permission_engine.py
unfoldable pub get_effective_permissions : Employee → List String
get_effective_permissions user =
    sorted_set (keep (λ p. str_elem p all_permissions) (get_user_permissions user))

unfoldable pub is_active_project : List Project → ℕ → Bool
is_active_project projects project_id =
    any (λ p. p.id == project_id && str_eq p.status "active") projects

-- the rows of the first query of `_resolve_projects`
unfoldable pub active_rows : Tables → ℕ → List ProjectMember
active_rows t employee_id =
    keep (λ m. m.employee_id == employee_id && is_active_project t.projects m.project_id) t.members

unfoldable pub resolve_project_ids : Tables → ℕ → List ℕ
resolve_project_ids t employee_id = map (λ m. m.project_id) (active_rows t employee_id)

unfoldable pub resolve_roles : Tables → ℕ → List (ℕ × String)
resolve_roles t employee_id = map (λ m. (m.project_id, m.role)) (active_rows t employee_id)

unfoldable pub resolve_project_source_ids : Tables → ℕ → List ℕ
resolve_project_source_ids t employee_id =
    map (λ r. r.source_id)
      (keep (λ r. elem r.project_id (resolve_project_ids t employee_id)) t.project_sources)

abbrev pub ids_where : (Source → Bool) → List Source → List ℕ
ids_where p sources = map (λ s. s.id) (keep p sources)

-- `_get_department_source_ids`
unfoldable pub get_department_source_ids : List Source → List ℕ → List ℕ
get_department_source_ids sources department_ids =
    let global_ids = ids_where global_clause sources in
    if is_empty department_ids
    then global_ids
    else global_ids ++ ids_where (λ s. overlaps department_ids s.department_ids) sources

-- the values of `allowed_source_ids` at a scope level
unfoldable pub allowed_at : Option String → List Source → List ℕ → Option (List ℕ)
allowed_at none sources department_ids = some []
allowed_at (some scope) sources department_ids =
    if str_eq scope "all"
    then none
    else if str_eq scope "own_dept"
    then some (get_department_source_ids sources department_ids)
    else some []

-- `_resolve_scope`
unfoldable pub resolve_scope : Tables → Employee → ResolvedIdentity
resolve_scope t employee =
    let permissions = get_effective_permissions employee in
    let project_ids = resolve_project_ids t employee.id in
    let project_source_ids = resolve_project_source_ids t employee.id in
    if is_admin employee
    then record {
      employee_id = employee.id;
      department_ids = employee.department_ids;
      allowed_knowledge_types = none;
      allowed_source_ids = none;
      project_source_ids = project_source_ids;
      project_ids = project_ids;
      workspace_roles = map (λ wid. (wid, "admin")) project_ids;
      is_admin = true;
      permissions = permissions;
    }
    else record {
      employee_id = employee.id;
      department_ids = employee.department_ids;
      allowed_knowledge_types = none;
      allowed_source_ids =
          allowed_at (get_scope_level permissions "doc" "read") t.sources employee.department_ids;
      project_source_ids = project_source_ids;
      project_ids = project_ids;
      workspace_roles = resolve_roles t employee.id;
      is_admin = false;
      permissions = permissions;
    }

abbrev pub type_allowed : Option String → List String → Bool
type_allowed none allowed = false
type_allowed (some slug) allowed = str_elem slug allowed

-- the conditions that `apply_scope_filter` joins by OR
abbrev pub source_condition : Option (List ℕ) → Source → Bool
source_condition none s = false
source_condition (some ids) s = elem s.id ids

abbrev pub type_condition : Option (List String) → Source → Bool
type_condition none s = false
type_condition (some types) s = type_allowed s.knowledge_type types

abbrev pub is_none {ℓ} : {A : Type ℓ} → Option A → Bool
is_none none = true
is_none (some _) = false

-- `apply_scope_filter`, as a test on one source
unfoldable pub apply_scope_filter : ResolvedIdentity → Source → Bool
apply_scope_filter i s =
    if is_none i.allowed_source_ids && is_none i.allowed_knowledge_types
    then true
    else source_condition i.allowed_source_ids s
      || (type_condition i.allowed_knowledge_types s || elem s.id i.project_source_ids)

-- `ResolvedIdentity.has_workspace_role_at_least`
unfoldable pub has_workspace_role_at_least : ResolvedIdentity → String → Bool
has_workspace_role_at_least i required =
    if i.is_admin
    then true
    else any (λ wr. at_least (parse_role wr.1) (parse_role required)) i.workspace_roles
