-- ===== src/Access/Skills.antt =====
-- Who sees which skill: the listing of app/routers/skills.py through `_apply_skill_filters` of
-- app/services/skill_service.py, beside `can_access_skill`.
pub mod Mismatch
use arkon.Base.{
  ℕ, Bool, true, false, not, ◌&&◌, ◌||◌, String, str_eq, Option, none, some, List, [], keep,
}
use arkon.Access.{overlaps, is_empty}

-- A skill with its departments, and its status: "active", "processing", "deleting", "deprecated" or
-- "archived".
pub record Skill : Type 0 where
  pub id : ℕ
  pub department_ids : List ℕ
  pub status : String

-- the RBAC clause of `_apply_skill_filters`
unfoldable pub skill_rbac : Option (List ℕ) → Skill → Bool
skill_rbac none s = true
skill_rbac (some allowed) s = is_empty s.department_ids || overlaps allowed s.department_ids

-- `_apply_skill_filters`, where the request sets no other filter
unfoldable pub skill_filters : Option (List ℕ) → Skill → Bool
skill_filters allowed s = skill_rbac allowed s && not (str_eq s.status "deleting")

-- `list_skills` of the router for such a request, all pages together
unfoldable pub list_skills : Bool × Option (List ℕ) → List Skill → List Skill
list_skills (true, none) skills = []
list_skills (true, some allowed) skills = keep (skill_filters (some allowed)) skills
list_skills (false, _) skills = keep (skill_filters none) skills
