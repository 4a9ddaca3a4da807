-- ===== src/Access/Skills/Mismatch.antt =====
-- The listing of skills beside the check of one skill: they agree for users with a permission on
-- skills, and differ for the others.
use arkon.Base.{
  not, ◌&&◌, str_eq, String, ◌≡◌, Bool, true, false, ◌||◌, none, some, List, [], arith, keep,
  keep-ext, str_elem,
}
use arkon.Access.{
  Employee, is_admin, get_user_permissions, can_access_skill, build_skill_filter, overlaps,
  is_empty,
}
use arkon.Access.Strings.{scoped}
use arkon.Access.Skills.{Skill, skill_rbac, skill_filters, list_skills}

abbrev pub manages_all : Employee → String → Bool
manages_all user action =
    is_admin user || str_elem (scoped "skill" action "all") (get_user_permissions user)

abbrev pub manages_own : Employee → String → Bool
manages_own user action = str_elem (scoped "skill" action "own_dept") (get_user_permissions user)

-- A skill that is not being deleted and that the user may access.
abbrev is_shown : Employee → String → Skill → Bool
is_shown user action s =
    can_access_skill user s.department_ids action && not (str_eq s.status "deleting")

module _ (user : Employee) (action : String) (skills : List Skill) where
  keep-unrestricted :
      manages_all user action ≡ true
      → keep (skill_filters none) skills ≡ keep (is_shown user action) skills
  keep-unrestricted h =
      keep-ext _ _ skills (λ s. unfold can_access_skill skill_filters skill_rbac in ground arith)

  keep-department :
      manages_all user action ≡ false
      → keep (skill_filters (some user.department_ids)) skills ≡ keep (is_shown user action) skills
  keep-department h =
      keep-ext _ _ skills (λ s. unfold can_access_skill skill_filters skill_rbac in ground arith)

  -- For an admin, or a user with either scope of the permission, the listing holds exactly the
  -- skills that `can_access_skill` grants and that are not being deleted.
  pub list_skills-eq-keep :
      (manages_all user action || manages_own user action) ≡ true
      → list_skills (build_skill_filter user action) skills ≡ keep (is_shown user action) skills
  unfolding list_skills build_skill_filter
  list_skills-eq-keep h = ground (arith, keep-unrestricted, keep-department)

  -- For a user who is no admin and has neither scope of the permission, the listing is empty, while
  -- `can_access_skill` still grants every skill with no department and every skill of one of the
  -- user's departments.
  pub skill_mismatch :
      manages_all user action ≡ false
      → manages_own user action ≡ false
      → (list_skills (build_skill_filter user action) skills ≡ [])
        × ((s : Skill)
            → can_access_skill user s.department_ids action
              ≡ (is_empty s.department_ids || overlaps user.department_ids s.department_ids))
  unfolding list_skills build_skill_filter can_access_skill
  skill_mismatch h k = (ground arith, λ s. ground arith)
