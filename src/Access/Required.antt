-- ===== src/Access/Required.antt =====
-- `require_permission` of app/services/auth_service.py beside the checks of
-- app/services/permission_engine.py.
use arkon.Base.{
  String, ◌≡◌, refl, true, false, ◌||◌, [], ◌∷◌, arith, str_eq, str_eq_iff, if◌then◌else◌, ok, err,
  Bool-cases, inl, inr,
}
use arkon.Access.{Employee, is_admin, get_user_permissions, has_permission}
use arkon.Access.Strings.{scoped, split}
use arkon.Access.Strings.Roundtrip.{has_colon, split-append, split_self}
use arkon.Access.Guard.{parts_allow, require_permission}

module _ (resource action : String) (r : has_colon resource ≡ false)
    (a : has_colon action ≡ false) where
  split-scoped :
      (scope : String)
      → has_colon scope ≡ false
      → split (scoped resource action scope) ≡ resource ∷ action ∷ scope ∷ []
  unfolding scoped
  split-scoped scope s = rw (split-append resource _ r, split-append action _ a, split_self scope s)

  -- For a resource and an action without colons and scope "all" or "own_dept", `require_permission`
  -- of the composed name lets a user through exactly when the user is an admin or `has_permission`
  -- grants that scope; otherwise it fails with status 403.
  pub require_permission-scoped :
      (scope : String) (user : Employee)
      → (str_eq scope "all" || str_eq scope "own_dept") ≡ true
      → require_permission (scoped resource action scope) user ≡ (
          if is_admin user || has_permission (get_user_permissions user) resource action scope
          then ok user
          else err 403)
  unfolding require_permission parts_allow has_permission
  require_permission-scoped scope user h = elim (Bool-cases (str_eq scope "all")) [
    | inl e ↦ rw ((str_eq_iff scope "all").0 e) (rw (split-scoped "all" refl) (ground arith))
    | inr e ↦
        let own : str_eq scope "own_dept" ≡ true = ground arith in
        rw ((str_eq_iff scope "own_dept").0 own) (rw (split-scoped "own_dept" refl) (ground arith))
  ]
