-- ===== src/Access/Catalog.antt =====
-- The constants of app/services/permissions.py, and the migration of old permission names.
use arkon.Base.{String, Option, none, some, List, [], ◌∷◌, ◌++◌, str_eq, if◌then◌else◌}

-- ALL_PERMISSIONS
abbrev pub all_permissions : List String
all_permissions =
    "doc:read:own_dept" ∷ "doc:read:all" ∷ "doc:create:own_dept" ∷ "doc:create:all"
    ∷ "doc:edit:own_dept" ∷ "doc:edit:all" ∷ "doc:delete:own_dept" ∷ "doc:delete:all"
    ∷ "wiki:read:own_dept" ∷ "wiki:read:all" ∷ "wiki:write:own_dept" ∷ "wiki:write:all"
    ∷ "wiki:delete:own_dept" ∷ "wiki:delete:all" ∷ "skill:read:own_dept" ∷ "skill:read:all"
    ∷ "skill:create:own_dept" ∷ "skill:create:all" ∷ "skill:edit:own_dept" ∷ "skill:edit:all"
    ∷ "skill:delete:own_dept" ∷ "skill:delete:all" ∷ "skill:contribution:review"
    ∷ "org:departments:read" ∷ "org:departments:manage" ∷ "org:employees:read"
    ∷ "org:employees:manage" ∷ "org:roles:read" ∷ "org:roles:manage" ∷ "org:settings:read"
    ∷ "org:settings:manage" ∷ "org:audit:read" ∷ "workspace:view:all" ∷ []

-- EMPLOYEE_DEFAULT_PERMISSIONS
abbrev pub employee_default_permissions : List String
employee_default_permissions =
    "doc:read:own_dept" ∷ "doc:create:own_dept" ∷ "wiki:read:own_dept" ∷ "wiki:write:own_dept"
    ∷ "skill:read:own_dept" ∷ "org:departments:read" ∷ []

-- LEGACY_PERMISSION_MAP
unfoldable pub legacy_permission_map : List (String × List String)
legacy_permission_map =
    ("documents.read", "doc:read:own_dept" ∷ [])
    ∷ ("documents.create", "doc:create:own_dept" ∷ [])
    ∷ ("documents.edit", "doc:edit:own_dept" ∷ [])
    ∷ ("documents.delete", "doc:delete:own_dept" ∷ [])
    ∷ ("kb.read", "wiki:read:own_dept" ∷ [])
    ∷ ("kb.create", "wiki:write:own_dept" ∷ [])
    ∷ ("kb.edit", "wiki:write:own_dept" ∷ [])
    ∷ ("kb.delete", "wiki:delete:own_dept" ∷ [])
    ∷ ("departments.read", "org:departments:read" ∷ [])
    ∷ ("departments.create", "org:departments:manage" ∷ [])
    ∷ ("departments.edit", "org:departments:manage" ∷ [])
    ∷ ("departments.delete", "org:departments:manage" ∷ [])
    ∷ ("employees.read", "org:employees:read" ∷ [])
    ∷ ("employees.create", "org:employees:manage" ∷ [])
    ∷ ("employees.edit", "org:employees:manage" ∷ [])
    ∷ ("employees.delete", "org:employees:manage" ∷ [])
    ∷ ("roles.read", "org:roles:read" ∷ [])
    ∷ ("roles.create", "org:roles:manage" ∷ [])
    ∷ ("roles.edit", "org:roles:manage" ∷ [])
    ∷ ("roles.delete", "org:roles:manage" ∷ [])
    ∷ ("settings.read", "org:settings:read" ∷ [])
    ∷ ("settings.edit", "org:settings:manage" ∷ [])
    ∷ ("workspaces.read", "workspace:view:all" ∷ [])
    ∷ ("workspaces.create", [])
    ∷ ("workspaces.edit", [])
    ∷ ("workspaces.delete", [])
    ∷ ("scopes.read", [])
    ∷ ("scopes.manage", [])
    ∷ ("audit.read", "org:audit:read" ∷ [])
    ∷ ("skills.read", "skill:read:own_dept" ∷ [])
    ∷ ("skills.create", "skill:create:own_dept" ∷ [])
    ∷ ("skills.edit", "skill:edit:own_dept" ∷ [])
    ∷ ("skills.delete", "skill:delete:own_dept" ∷ [])
    ∷ []

module _ {ℓ} {V : Type ℓ} where
  abbrev pub lookup : String → List (String × V) → Option V
  lookup k [] = none
  lookup k ((j, v) ∷ m) = let rest = lookup k m in if str_eq j k then some v else rest

abbrev pub or_self : String → Option (List String) → List String
or_self p none = p ∷ []
or_self p (some ps) = ps

-- what one stored permission stands for
unfoldable pub migrate_one : String → List String
migrate_one p = or_self p (lookup p legacy_permission_map)

-- the loop of `_get_user_permissions` over the stored permissions
unfoldable pub migrate : List String → List String
migrate [] = []
migrate (p ∷ ps) = migrate_one p ++ migrate ps
