-- ===== src/Identity/Scope.antt =====
-- The sources that an identity reaches, beside the check of one source.
use mathlib.Core.List.{Memᴰ}
use arkon.Base.{ℕ, ◌≡◌, refl, ◌≢◌, Bool, false, ◌||◌, List, [], ◌∷◌, arith, any-append, elem, All}
use arkon.Access.{Employee, get_scope_level, can_access_document, overlaps}
use arkon.Access.Documents.{Source, global_clause}
use arkon.Identity.{
  Tables, ids_where, get_department_source_ids, allowed_at, resolve_scope, apply_scope_filter,
  resolve_project_source_ids,
}
use arkon.Identity.Effective.{get_scope_level-effective}

-- No two sources have one id.
abbrev pub UniqueIds : List Source → Type 0
UniqueIds [] = Unit
UniqueIds (s ∷ ss) = All (λ t. t.id ≢ s.id) ss × UniqueIds ss

elem-ids_where-ne :
    (p : Source → Bool) (n : ℕ) (sources : List Source)
    → All (λ t. t.id ≢ n) sources
    → elem n (ids_where p sources) ≡ false
elem-ids_where-ne p n [] h = refl
elem-ids_where-ne p n (t ∷ sources) h = ground (arith, elem-ids_where-ne p n sources)

All-Memᴰ :
    (P : Source → Type 0) {s : Source} (sources : List Source)
    → All P sources
    → Memᴰ s sources
    → P s
All-Memᴰ P [] h m = elim m [ ]
All-Memᴰ P (t ∷ sources) h (Memᴰ.head e) = rw e h.0
All-Memᴰ P (t ∷ sources) h (Memᴰ.tail m) = All-Memᴰ P sources h.1 m

elem-ids_where :
    (p : Source → Bool) {s : Source} (sources : List Source)
    → UniqueIds sources
    → Memᴰ s sources
    → elem s.id (ids_where p sources) ≡ p s
elem-ids_where p [] u m = elim m [ ]
elem-ids_where p (t ∷ sources) u (Memᴰ.head e) =
    rw e (ground (arith, elem-ids_where-ne p t.id sources u.0))
elem-ids_where p {s} (t ∷ sources) u (Memᴰ.tail m) =
    let other : s.id ≢ t.id = All-Memᴰ (λ x. x.id ≢ t.id) sources u.0 m in
    ground (arith, elem-ids_where p sources u.1 m)

any-false : (ys : List ℕ) → overlaps [] ys ≡ false
any-false [] = refl
any-false (y ∷ ys) = any-false ys

-- The ids that a list of departments grants, at a source of the table.
elem-get_department_source_ids :
    {s : Source} (sources : List Source) (ds : List ℕ)
    → UniqueIds sources
    → Memᴰ s sources
    → elem s.id (get_department_source_ids sources ds)
      ≡ (global_clause s || overlaps ds s.department_ids)
unfolding get_department_source_ids
elem-get_department_source_ids {s} sources [] u m =
    ground (arith, elem-ids_where global_clause sources u m, any-false s.department_ids)
elem-get_department_source_ids {s} sources (d ∷ ds) u m = rw any-append (
    ground (
      arith,
      elem-ids_where global_clause sources u m,
      elem-ids_where (λ t. overlaps (d ∷ ds) t.department_ids) sources u m,
    ))

-- For a table of sources with distinct ids and a source of the table, the identity resolved for a
-- user reaches the source exactly when `can_access_document` lets the user read it or the source
-- belongs to an active workspace of the user.
pub apply_scope_filter-resolve_scope :
    (t : Tables) (user : Employee) {s : Source}
    → UniqueIds t.sources
    → Memᴰ s t.sources
    → apply_scope_filter (resolve_scope t user) s ≡ (
        can_access_document user s.department_ids "read"
        || elem s.id (resolve_project_source_ids t user.id))
unfolding apply_scope_filter resolve_scope allowed_at
apply_scope_filter-resolve_scope t user {s} u m = rw get_scope_level-effective (
    unfold get_scope_level can_access_document in
    ground (arith, elem-get_department_source_ids t.sources user.department_ids u m))
