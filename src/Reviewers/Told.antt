-- ===== src/Reviewers/Told.antt =====
-- Who is told of a change, beside who may review it.
use mathlib.Core.List.{Memᴰ}
use arkon.Base.{
  ℕ, String, ◌≡◌, refl, sym, ap, ◌∙◌, Bool, true, false, not, ◌&&◌, ◌||◌, Option, none, some, List,
  [], ◌∷◌, map, arith, any, any-append, elem, keep, ◌==◌, str_eq, str_elem, str_eq_iff,
  if◌then◌else◌, Bool-cases, inl, inr,
}
use arkon.Access.{
  Role, Employee, ProjectMember, is_admin, or_empty, role_permissions, get_user_permissions,
  parse_role, workspace_role_can, member_role, get_workspace_role,
}
use arkon.Access.Catalog.{legacy_permission_map}
use arkon.Access.Migration.{IsKept, str_elem-migrate}
use arkon.Notify.Recipients.{dedup}
use arkon.Reviewers.{
  Scope, Directory, get_workspace_reviewers, grants_write_all, get_global_reviewers,
  project_reviewers, get_reviewers_for_scope, role_can, can_review_scope,
}

write_all-IsKept : IsKept "wiki:write:all"
unfolding legacy_permission_map
write_all-IsKept = (refl, search refl)

grants_write_all_lem :
    (r : Option Role) → str_elem "wiki:write:all" (role_permissions r) ≡ grants_write_all r
unfolding role_permissions grants_write_all
grants_write_all_lem none = refl
grants_write_all_lem (some r) =
    str_elem-migrate "wiki:write:all" (or_empty r.permissions) write_all-IsKept

elem-keep-ne :
    (k x : ℕ) (xs : List ℕ) → (k == x) ≡ false → elem k (keep (λ y. not (y == x)) xs) ≡ elem k xs
elem-keep-ne k x [] h = refl
elem-keep-ne k x (y ∷ xs) h = ground (arith, elem-keep-ne k x xs)

pub elem-dedup : (k : ℕ) (xs : List ℕ) → elem k (dedup xs) ≡ elem k xs
unfolding dedup
elem-dedup k [] = refl
elem-dedup k (x ∷ xs) = ground (arith, elem-keep-ne k x (dedup xs), elem-dedup k xs)

-- an employee of a list who passes a test is among the ids of those who do
elem-ids :
    (p : Employee → Bool) {e : Employee} (es : List Employee)
    → Memᴰ e es
    → p e ≡ true
    → elem e.id (map (λ x. x.id) (keep p es)) ≡ true
elem-ids p [] m h = elim m [ ]
elem-ids p (x ∷ es) (Memᴰ.head q) h =
    let same : p x ≡ true = ap p (sym q) ∙ h in rw q (ground arith)
elem-ids p (x ∷ es) (Memᴰ.tail m) h = ground (arith, elem-ids p es m h)

pub elem-get_global_reviewers :
    (d : Directory) {e : Employee}
    → Memᴰ e d.employees
    → (is_admin e || grants_write_all e.custom_role) ≡ true
    → elem e.id (get_global_reviewers d) ≡ true
unfolding get_global_reviewers
elem-get_global_reviewers d {e} m h =
    rw (elem-dedup, any-append)
      (ground (
        arith,
        elem-ids is_admin d.employees m,
        elem-ids (λ x. grants_write_all x.custom_role) d.employees m,
      ))

pub write_all_lem :
    (e : Employee)
    → is_admin e ≡ false
    → str_elem "wiki:write:all" (get_user_permissions e) ≡ grants_write_all e.custom_role
unfolding get_user_permissions
write_all_lem e h = rw h (grants_write_all_lem e.custom_role)

-- the roles that meet "editor"
pub editor_roles :
    (r : String) → workspace_role_can r "editor" ≡ (str_eq r "editor" || str_eq r "admin")
unfolding workspace_role_can parse_role
editor_roles r = elim (Bool-cases (str_eq r "viewer")) [
  | inl v ↦ rw ((str_eq_iff r "viewer").0 v) refl
  | inr v ↦ elim (Bool-cases (str_eq r "contributor")) [
    | inl c ↦ rw ((str_eq_iff r "contributor").0 c) refl
    | inr c ↦ ground arith
  ]
]

pub elem-members :
    (ms : List ProjectMember) (w k : ℕ) {r : String}
    → member_role ms w k ≡ some r
    → (str_eq r "editor" || str_eq r "admin") ≡ true
    → any
        (λ m.
          m.employee_id == k
          && (m.project_id == w && (str_eq m.role "editor" || str_eq m.role "admin")))
        ms
      ≡ true
unfolding member_role
elem-members [] w k q h = absurd (cc)
elem-members (m ∷ ms) w k {r} q h = ground (arith, elem-members ms w k {r = r})

elem-workspace :
    (ms : List ProjectMember) (w k : ℕ) {r : String}
    → member_role ms w k ≡ some r
    → (str_eq r "editor" || str_eq r "admin") ≡ true
    → elem k (
        map
          (λ m. m.employee_id)
          (keep (λ m. m.project_id == w && (str_eq m.role "editor" || str_eq m.role "admin")) ms))
      ≡ true
unfolding member_role
elem-workspace [] w k q h = absurd (cc)
elem-workspace (m ∷ ms) w k {r} q h = ground (arith, elem-workspace ms w k {r = r})

elem-project_reviewers :
    (d : Directory) (w k : ℕ) {r : String}
    → member_role d.members w k ≡ some r
    → role_can (some r) "editor" ≡ true
    → elem k (get_workspace_reviewers d w) ≡ true
unfolding get_workspace_reviewers role_can
elem-project_reviewers d w k {r} q h =
    elem-workspace d.members w k q (ground (arith, editor_roles r))

-- the test of the project branch
abbrev pub reviews_project : Directory → Employee → Option ℕ → Bool
reviews_project d e none = str_elem "wiki:write:all" (get_user_permissions e)
reviews_project d e (some w) = role_can (get_workspace_role d.members e w) "editor"

pub can_review_scope_lem :
    (d : Directory) (e : Employee) (s : Scope)
    → can_review_scope d e s ≡ (
        is_admin e
        || (if str_eq s.scope_type "project"
            then reviews_project d e s.scope_id
            else str_elem "wiki:write:all" (get_user_permissions e)))
unfolding can_review_scope
can_review_scope_lem d e s = ground arith

pub project-global :
    (d : Directory) (k : ℕ) (scope_id : Option ℕ)
    → elem k (get_global_reviewers d) ≡ true
    → elem k (project_reviewers d scope_id) ≡ true
unfolding project_reviewers
project-global d k none h = h
project-global d k (some w) h = rw (elem-dedup, any-append) (ground arith)

module _ (d : Directory) {e : Employee} (m : Memᴰ e d.employees) where
  global-told :
      (is_admin e || str_elem "wiki:write:all" (get_user_permissions e)) ≡ true
      → elem e.id (get_global_reviewers d) ≡ true
  global-told h = elem-get_global_reviewers d m (elim (Bool-cases (is_admin e)) [
    | inl a ↦ rw a refl
    | inr a ↦ rw (a, ← write_all_lem e a) (rw a at h)
  ])

  role-told :
      (w : ℕ) (r : Option String)
      → member_role d.members w e.id ≡ r
      → role_can r "editor" ≡ true
      → elem e.id (get_workspace_reviewers d w) ≡ true
  role-told w none q h = unfold role_can in absurd (cc h)
  role-told w (some r) q h = elem-project_reviewers d w e.id q h

  project-told :
      (scope_id : Option ℕ)
      → (is_admin e || reviews_project d e scope_id) ≡ true
      → elem e.id (project_reviewers d scope_id) ≡ true
  unfolding project_reviewers
  project-told none h = global-told h
  project-told (some w) h =
      rw (elem-dedup, any-append)
        (elim (Bool-cases (is_admin e)) [
          | inl a ↦
              let told : elem e.id (get_global_reviewers d) ≡ true = global-told (rw a refl) in
              ground arith
          | inr a ↦
              let role : role_can (member_role d.members w e.id) "editor" ≡ true =
                unfold get_workspace_role in rw a at h in
              rw (role-told w (member_role d.members w e.id) refl role) refl
        ])

  -- Every employee of the directory who may review a page's scope is among those whom
  -- `get_reviewers_for_scope` resolves for it.
  pub can_review-told :
      (s : Scope) → can_review_scope d e s ≡ true → elem e.id (get_reviewers_for_scope d s) ≡ true
  unfolding get_reviewers_for_scope
  can_review-told s h =
      let h' : (is_admin e
            || (if str_eq s.scope_type "project"
                then reviews_project d e s.scope_id
                else str_elem "wiki:write:all" (get_user_permissions e)))
          ≡ true =
        sym (can_review_scope_lem d e s) ∙ h in
      elim (Bool-cases (str_eq s.scope_type "project")) [
        | inl p ↦ rw p (project-told s.scope_id (rw p at h'))
        | inr p ↦ rw p (global-told (rw p at h'))
      ]
