-- ===== src/Identity/Tools.antt =====
-- Which MCP tools a caller is shown: app/mcp/permissions.py and app/mcp/middleware.py.
pub mod Visibility
use Prim.Native.String.{◌++◌ as str_append}
use arkon.Base.{
  ℕ, String, ◌≡◌, refl, Bool, true, false, ◌&&◌, ◌||◌, Option, none, some, List, [], ◌∷◌, map,
  arith, any, keep, keep-true, str_eq, str_elem, if◌then◌else◌,
}
use arkon.Access.{at_least, parse_role, level, WorkspaceRole}
use arkon.Identity.{ResolvedIdentity, has_workspace_role_at_least}

unfoldable pub can_contribute : ResolvedIdentity → Bool
can_contribute i =
    i.is_admin
    || ((str_elem "wiki:write:own_dept" i.permissions || str_elem "wiki:write:all" i.permissions)
        || has_workspace_role_at_least i "contributor")

unfoldable pub can_review : ResolvedIdentity → Bool
can_review i =
    i.is_admin
    || (str_elem "wiki:write:all" i.permissions || has_workspace_role_at_least i "editor")

-- The requirements of the module: ANY_AUTHENTICATED, CAN_CONTRIBUTE_WIKI and CAN_REVIEW_WIKI
-- (CAN_CREATE_WIKI_DIRECT is the last one).
pub data ToolRequirement : Type 0 where
  any_authenticated can_contribute_wiki can_review_wiki : ToolRequirement

unfoldable pub allows : ToolRequirement → ResolvedIdentity → Bool
allows any_authenticated i = true
allows can_contribute_wiki i = can_contribute i
allows can_review_wiki i = can_review i

-- A registered tool; the attribute of `kb_tool` may be missing.
pub record Tool : Type 0 where
  pub name : String
  pub description : String
  pub requires : Option ToolRequirement

unfoldable pub requirement_for : Tool → ToolRequirement
requirement_for t = elim t.requires [ none ↦ any_authenticated | some r ↦ r ]

abbrev pub is_any_authenticated : ToolRequirement → Bool
is_any_authenticated any_authenticated = true
is_any_authenticated _ = false

-- `_AUTH_HINT.rstrip()`, and `_AUTH_HINT`
abbrev pub auth_hint_line : String
auth_hint_line =
    "[Authenticate to use] Configure your MCP bearer token in your client (headers.Authorization: \"Bearer <token>\"). Without a valid token, calling this tool will return an authentication error."

abbrev pub auth_hint : String
auth_hint = str_append auth_hint_line "\n\n"

unfoldable pub hint_description : Tool → Tool
hint_description t = record t {
  description =
      if str_eq t.description "" then auth_hint_line else str_append auth_hint t.description;
}

-- `on_list_tools`: no identity is a caller without a valid token.
unfoldable pub on_list_tools : Option ResolvedIdentity → List Tool → List Tool
on_list_tools none tools =
    map (hint_description) (keep (λ t. is_any_authenticated (requirement_for t)) tools)
on_list_tools (some i) tools = keep (λ t. allows (requirement_for t) i) tools
