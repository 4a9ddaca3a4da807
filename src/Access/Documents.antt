-- ===== src/Access/Documents.antt =====
-- Who sees which source: `list_sources` of app/routers/sources.py beside `can_access_document` of
-- app/services/permission_engine.py.
pub mod Agreement
use text.Mathlib.Text.{starts_with}
use arkon.Base.{
  ℕ, String, Bool, true, false, not, ◌&&◌, ◌||◌, Option, none, some, List, [], any, keep, str_eq,
  if◌then◌else◌, Result, ok, err,
}
use arkon.Access.{Employee, is_admin, get_user_permissions, get_scope_level, overlaps, is_empty}

-- A source with the departments of its rows in `source_departments` and the slug of its
-- knowledge type.
pub record Source : Type 0 where
  pub id : ℕ
  pub knowledge_type : Option String
  pub department_ids : List ℕ

-- `not exists(rows of the source)`
abbrev pub global_clause : Source → Bool
global_clause s = is_empty s.department_ids

-- `dept_filter` for the user's departments
unfoldable pub dept_filter : List ℕ → Source → Bool
dept_filter user_dept_ids s =
    if not (is_empty user_dept_ids)
    then global_clause s || overlaps user_dept_ids s.department_ids
    else global_clause s

-- what `list_sources` selects at a scope level
unfoldable pub scope_rows : Option String → List ℕ → List Source → List Source
scope_rows none user_dept_ids sources = []
scope_rows (some scope_level) user_dept_ids sources =
    if str_eq scope_level "own_dept" then keep (dept_filter user_dept_ids) sources else sources

-- `list_sources` with no additional filter and all pages; the error is the HTTP status.
unfoldable pub list_sources : Employee → List Source → Result ℕ (List Source)
list_sources user sources =
    let perms = get_user_permissions user in
    if not (is_admin user) && not (any (λ p. starts_with p "doc:read:") perms)
    then err 403
    else ok (
        scope_rows (if is_admin user then some "all" else get_scope_level perms "doc" "read")
          user.department_ids sources)

-- A listing by what `build_document_filter` returns.
unfoldable pub filter_documents : Bool × Option (List ℕ) → List Source → List Source
filter_documents (false, _) sources = sources
filter_documents (true, none) sources = []
filter_documents (true, some allowed_dept_ids) sources =
    keep (λ s. global_clause s || overlaps allowed_dept_ids s.department_ids) sources
