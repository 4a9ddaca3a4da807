-- ===== src/Reviewers/Queue.antt =====
-- The reviewer's queue and the right to propose, beside the right to review.
use mathlib.Core.List.{Memᴰ}
use arkon.Base.{
  ℕ, String, ◌≡◌, true, false, ◌&&◌, ◌||◌, Option, none, some, arith, any, elem, ◌==◌, str_eq,
}
use arkon.Access.{
  WorkspaceRole, Employee, is_admin, has_any_permission, has_permission, parse_role, at_least,
  workspace_role_can, member_role, get_workspace_role,
}
use arkon.Access.Strings.{scoped}
use arkon.Reviewers.{
  Scope, Directory, grants_write_all, get_reviewers_for_scope, role_can, can_review_scope,
  can_propose, reviewable_page_filter,
}
use arkon.Reviewers.Told.{
  editor_roles, elem-members, elem-get_global_reviewers, write_all_lem, project-global,
}

at_least_down :
    (o : Option WorkspaceRole)
    → at_least o (parse_role "editor") ≡ true
    → at_least o (parse_role "contributor") ≡ true
unfolding parse_role
at_least_down o h = ground arith

editor-contributor :
    (r : Option String) → role_can r "editor" ≡ true → role_can r "contributor" ≡ true
unfolding role_can workspace_role_can
editor-contributor none h = h
editor-contributor (some r) h = ground (arith, at_least_down (parse_role r))

module _ (d : Directory) (user : Employee) (kind : String) where
  review-propose :
      (scope_id : Option ℕ)
      → can_review_scope d user (record { scope_type = kind; scope_id = scope_id }) ≡ true
      → can_propose d user (record { scope_type = kind; scope_id = scope_id }) ≡ true
  unfolding can_review_scope can_propose has_any_permission has_permission scoped
  review-propose none h = ground arith
  review-propose (some w) h =
      ground (arith, editor-contributor (get_workspace_role d.members user w))

  listed-role :
      (w : ℕ) (r : Option String)
      → is_admin user ≡ false
      → member_role d.members w user.id ≡ r
      → role_can r "editor" ≡ true
      → any
          (λ m.
            m.employee_id == user.id
            && (m.project_id == w && (str_eq m.role "editor" || str_eq m.role "admin")))
          d.members
        ≡ true
  unfolding role_can
  listed-role w none a q h = absurd (cc h)
  listed-role w (some r) a q h = elem-members d.members w user.id q (ground (arith, editor_roles r))

  review-listed :
      (scope_id : Option ℕ)
      → can_review_scope d user (record { scope_type = kind; scope_id = scope_id }) ≡ true
      → reviewable_page_filter d user (record { scope_type = kind; scope_id = scope_id }) ≡ true
  unfolding can_review_scope reviewable_page_filter get_workspace_role
  review-listed none h = ground arith
  review-listed (some w) h = ground (arith, listed-role w (member_role d.members w user.id))

-- Whoever may review the scope of a page may propose changes there.
pub can_review-can_propose :
    (d : Directory) (user : Employee) (s : Scope)
    → can_review_scope d user s ≡ true
    → can_propose d user s ≡ true
can_review-can_propose d user s h = review-propose d user s.scope_type s.scope_id h

-- Whatever page a user may review, the filter of the reviewer's queue selects it.
pub can_review-listed :
    (d : Directory) (user : Employee) (s : Scope)
    → can_review_scope d user s ≡ true
    → reviewable_page_filter d user s ≡ true
can_review-listed d user s h = review-listed d user s.scope_type s.scope_id h

-- A user who is no admin, whose role stores "wiki:write:all" and who is no member of a workspace is
-- told of the drafts of its pages and finds them in the queue, but may not review them.
pub write_all_gap :
    (d : Directory) {user : Employee} (w : ℕ)
    → Memᴰ user d.employees
    → is_admin user ≡ false
    → grants_write_all user.custom_role ≡ true
    → member_role d.members w user.id ≡ none
    → (can_review_scope d user (record { scope_type = "project"; scope_id = some w }) ≡ false)
      × (elem user.id
            (get_reviewers_for_scope d (record { scope_type = "project"; scope_id = some w }))
          ≡ true)
      × (reviewable_page_filter d user (record { scope_type = "project"; scope_id = some w })
          ≡ true)
unfolding can_review_scope get_reviewers_for_scope reviewable_page_filter get_workspace_role
    role_can
write_all_gap d {user} w m a g o = (
  ground arith,
  project-global d user.id (some w) (elem-get_global_reviewers d m (ground arith)),
  ground (arith, write_all_lem user a),
)
