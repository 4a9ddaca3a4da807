-- ===== src/Access/Examples.antt =====
-- The theorems on permissions at single users and lists.
use arkon.Base.{◌≡◌, refl, String, ◌||◌, none, some, List, [], ◌∷◌, ok, err, keep, if◌then◌else◌}
use arkon.Samples.{worker, outsider}
use arkon.Access.{
  is_admin, get_user_permissions, role_permissions, can_access_document, can_access_skill,
  build_skill_filter, overlaps, is_empty,
}
use arkon.Access.Strings.{scoped}
use arkon.Access.Catalog.{migrate}
use arkon.Access.Documents.{Source, list_sources}
use arkon.Access.Documents.Agreement.{list_sources-eq-keep, has_doc_read}
use arkon.Access.Skills.{Skill, list_skills}
use arkon.Access.Skills.Mismatch.{skill_mismatch}

abbrev stored : List String
stored = "documents.read" ∷ "custom:run:all" ∷ "wiki:write:all" ∷ []

abbrev sources : List Source
sources =
    record { id = 1; knowledge_type = none; department_ids = [] }
    ∷ record { id = 2; knowledge_type = some "hr"; department_ids = 1 ∷ [] }
    ∷ record { id = 3; knowledge_type = none; department_ids = 5 ∷ [] }
    ∷ []

list_sources-eq-keep_example : list_sources worker sources ≡ (
    if is_admin worker || has_doc_read worker
    then ok (keep (λ s. can_access_document worker s.department_ids "read") sources)
    else err 403)
list_sources-eq-keep_example = list_sources-eq-keep worker sources

abbrev skills : List Skill
skills =
    record { id = 1; department_ids = []; status = "active" }
    ∷ record { id = 2; department_ids = 2 ∷ []; status = "deleting" }
    ∷ record { id = 3; department_ids = 5 ∷ []; status = "active" }
    ∷ []

skill_mismatch_example :
    (list_skills (build_skill_filter outsider "read") skills ≡ [])
    × ((s : Skill)
        → can_access_skill outsider s.department_ids "read"
          ≡ (is_empty s.department_ids || overlaps (2 ∷ []) s.department_ids))
unfolding get_user_permissions role_permissions scoped migrate
skill_mismatch_example = skill_mismatch outsider "read" skills refl refl
