-- ===== src/Identity/Examples.antt =====
-- The theorems on identities at single users and tools.
use mathlib.Core.List.{Memᴰ}
use arkon.Base.{◌≡◌, refl, true, ◌||◌, none, some, List, [], ◌∷◌, elem, arith}
use arkon.Samples.{worker, members}
use arkon.Access.{can_access_document}
use arkon.Access.Documents.{Source}
use arkon.Identity.{
  Tables, ResolvedIdentity, resolve_scope, apply_scope_filter, resolve_project_source_ids,
}
use arkon.Identity.Scope.{apply_scope_filter-resolve_scope}
use arkon.Identity.Tools.{Tool, can_review_wiki}

abbrev shared : Source
shared = record { id = 2; knowledge_type = none; department_ids = 5 ∷ [] }

abbrev tables : Tables
tables = record {
  sources = record { id = 1; knowledge_type = none; department_ids = [] } ∷ shared ∷ [];
  projects = record { id = 9; status = "active" } ∷ [];
  members = members;
  project_sources = record { project_id = 9; source_id = 2 } ∷ [];
}

apply_scope_filter-resolve_scope_example :
    apply_scope_filter (resolve_scope tables worker) shared
    ≡ (can_access_document worker (5 ∷ []) "read" || elem 2 (resolve_project_source_ids tables 2))
apply_scope_filter-resolve_scope_example =
    apply_scope_filter-resolve_scope tables worker ((omega arith, tt), (tt, tt))
      (Memᴰ.tail (Memᴰ.head refl))

abbrev identity : ResolvedIdentity
identity = record {
  employee_id = 1;
  department_ids = [];
  allowed_knowledge_types = none;
  allowed_source_ids = none;
  project_source_ids = [];
  project_ids = [];
  workspace_roles = [];
  is_admin = true;
  permissions = [];
}

abbrev tools : List Tool
tools =
    record { name = "search"; description = ""; requires = none }
    ∷ record { name = "approve"; description = "Approve"; requires = some can_review_wiki }
    ∷ []
