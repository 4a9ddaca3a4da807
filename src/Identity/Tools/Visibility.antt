-- ===== src/Identity/Tools/Visibility.antt =====
-- What each kind of caller is shown of the tools.
use arkon.Base.{
  ℕ, String, ◌≡◌, refl, Bool, true, Option, none, some, List, [], ◌∷◌, arith, any, keep-true,
  str_eq,
}
use arkon.Access.{at_least, parse_role, WorkspaceRole}
use arkon.Identity.{ResolvedIdentity, has_workspace_role_at_least}
use arkon.Identity.Tools.{
  can_contribute, can_review, ToolRequirement, any_authenticated, can_contribute_wiki,
  can_review_wiki, allows, Tool, requirement_for, is_any_authenticated, hint_description,
  on_list_tools,
}

at_least_lower :
    (o : Option WorkspaceRole)
    → at_least o (parse_role "editor") ≡ true
    → at_least o (parse_role "contributor") ≡ true
unfolding parse_role
at_least_lower o h = ground arith

any-lower :
    (rs : List (ℕ × String))
    → any (λ wr. at_least (parse_role wr.1) (parse_role "editor")) rs ≡ true
    → any (λ wr. at_least (parse_role wr.1) (parse_role "contributor")) rs ≡ true
any-lower [] h = h
any-lower (r ∷ rs) h = ground (arith, at_least_lower (parse_role r.1), any-lower rs)

-- Whoever may review may contribute.
can_review-can_contribute : (i : ResolvedIdentity) → can_review i ≡ true → can_contribute i ≡ true
unfolding can_review can_contribute has_workspace_role_at_least
can_review-can_contribute i h = ground (arith, any-lower i.workspace_roles)

allows_all :
    (i : ResolvedIdentity) → can_review i ≡ true → (r : ToolRequirement) → allows r i ≡ true
unfolding allows
allows_all i h any_authenticated = refl
allows_all i h can_contribute_wiki = can_review-can_contribute i h
allows_all i h can_review_wiki = h

-- An identity that may review is shown every tool, unchanged.
pub on_list_tools-reviewer :
    (i : ResolvedIdentity) (tools : List Tool)
    → can_review i ≡ true
    → on_list_tools (some i) tools ≡ tools
unfolding on_list_tools
on_list_tools-reviewer i tools h = keep-true _ tools (λ t. allows_all i h (requirement_for t))

abbrev pub shows : String → List Tool → Bool
shows name = any (λ t. str_eq t.name name)

allows_public :
    (i : ResolvedIdentity) (r : ToolRequirement) → is_any_authenticated r ≡ true → allows r i ≡ true
unfolding allows
allows_public i any_authenticated h = refl
allows_public i _ h = absurd (cc)

-- A tool name that is shown without a token is shown to every identity.
pub on_list_tools-public :
    (i : ResolvedIdentity) (tools : List Tool) (name : String)
    → shows name (on_list_tools none tools) ≡ true
    → shows name (on_list_tools (some i) tools) ≡ true
unfolding on_list_tools hint_description
on_list_tools-public i [] name h = h
on_list_tools-public i (t ∷ tools) name h =
    ground (arith, allows_public i (requirement_for t), on_list_tools-public i tools name)
