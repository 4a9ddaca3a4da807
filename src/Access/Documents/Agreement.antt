-- ===== src/Access/Documents/Agreement.antt =====
-- The listings of sources agree with the check of one source.
use text.Mathlib.Text.{starts_with}
use arkon.Base.{
  ℕ, String, ◌≡◌, Bool, true, false, ◌&&◌, ◌||◌, List, [], ◌∷◌, arith, any, keep, keep-ext,
  keep-true, keep-false, str_elem, if◌then◌else◌, ok, err, refl,
}
use arkon.Access.{
  Employee, is_admin, get_user_permissions, get_scope_level, can_access_document,
  build_document_filter, overlaps,
}
use arkon.Access.Strings.{scoped}
use arkon.Access.Documents.{
  Source, global_clause, dept_filter, scope_rows, list_sources, filter_documents,
}

overlaps-nil : (ys : List ℕ) → overlaps [] ys ≡ false
overlaps-nil [] = refl
overlaps-nil (y ∷ ys) = overlaps-nil ys

dept_filter_lem :
    (ds : List ℕ) (s : Source)
    → dept_filter ds s ≡ (global_clause s || overlaps ds s.department_ids)
unfolding dept_filter
dept_filter_lem [] s = ground (arith, overlaps-nil s.department_ids)
dept_filter_lem (d ∷ ds) s = refl

-- the document check, as a test on a source, at each scope level
abbrev readable : Employee → String → Source → Bool
readable user action s = can_access_document user s.department_ids action

readable_lem :
    (user : Employee) (action : String) (s : Source)
    → readable user action s ≡ (
        if is_admin user || str_elem (scoped "doc" action "all") (get_user_permissions user)
        then true
        else str_elem (scoped "doc" action "own_dept") (get_user_permissions user)
          && (global_clause s || overlaps user.department_ids s.department_ids))
unfolding can_access_document
readable_lem user action s = ground arith

-- the user may read every source
abbrev reads_all : Employee → String → Bool
reads_all user action =
    is_admin user || str_elem (scoped "doc" action "all") (get_user_permissions user)

abbrev reads_own : Employee → String → Bool
reads_own user action = str_elem (scoped "doc" action "own_dept") (get_user_permissions user)

module _ (user : Employee) (action : String) where
  keep-reads_all :
      (sources : List Source)
      → reads_all user action ≡ true
      → keep (readable user action) sources ≡ sources
  keep-reads_all sources h =
      keep-true (readable user action) sources (λ s. rw (readable_lem user action s, h))

  keep-reads_own :
      (sources : List Source)
      → reads_all user action ≡ false
      → reads_own user action ≡ true
      → keep (readable user action) sources
        ≡ keep (λ s. global_clause s || overlaps user.department_ids s.department_ids) sources
  keep-reads_own sources h o =
      keep-ext (readable user action) _ sources (λ s. rw (readable_lem user action s, h, o))

  keep-reads_none :
      (sources : List Source)
      → reads_all user action ≡ false
      → reads_own user action ≡ false
      → keep (readable user action) sources ≡ []
  keep-reads_none sources h o =
      keep-false (readable user action) sources (λ s. rw (readable_lem user action s, h, o))

-- A listing through `build_document_filter` holds exactly the sources that `can_access_document`
-- grants, for every user, action and list of sources.
pub filter_documents-eq-keep :
    (user : Employee) (action : String) (sources : List Source)
    → filter_documents (build_document_filter user action) sources
      ≡ keep (λ s. can_access_document user s.department_ids action) sources
unfolding filter_documents build_document_filter
filter_documents-eq-keep user action sources = ground (
  arith,
  keep-reads_all user action sources,
  keep-reads_own user action sources,
  keep-reads_none user action sources,
)

-- some permission begins with "doc:read:"
abbrev pub has_doc_read : Employee → Bool
has_doc_read user = any (λ p. starts_with p "doc:read:") (get_user_permissions user)

-- `list_sources` refuses a user who is no admin and has no permission that begins with "doc:read:",
-- with status 403; for any other user it lists exactly the sources that `can_access_document`
-- grants for reading.
pub list_sources-eq-keep :
    (user : Employee) (sources : List Source)
    → list_sources user sources ≡ (
        if is_admin user || has_doc_read user
        then ok (keep (λ s. can_access_document user s.department_ids "read") sources)
        else err 403)
unfolding list_sources scope_rows get_scope_level
list_sources-eq-keep user sources = ground (
  arith,
  keep-reads_all user "read" sources,
  keep-reads_own user "read" sources,
  keep-reads_none user "read" sources,
  keep-ext (dept_filter user.department_ids)
      (λ s. global_clause s || overlaps user.department_ids s.department_ids) sources
      (dept_filter_lem user.department_ids),
)
