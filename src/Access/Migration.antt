-- ===== src/Access/Migration.antt =====
-- The migration of legacy permission names (`_get_user_permissions` of
-- app/services/permission_engine.py over LEGACY_PERMISSION_MAP of app/services/permissions.py).
use mathlib.Core.Path.{subst}
use mathlib.Core.List.{append_assoc}
use arkon.Base.{
  false, none, some, arith, any-append, str_eq, str_elem, str_eq_iff, sym, ◌∙◌, ap, String, ◌≡◌,
  refl, some, List, [], ◌∷◌, ◌++◌, All, str_eq, inl, inr, Bool-cases, Option-cases,
}
use arkon.Access.Catalog.{legacy_permission_map, lookup, migrate_one, migrate}

migrate-append : (xs ys : List String) → migrate (xs ++ ys) ≡ migrate xs ++ migrate ys
unfolding migrate
migrate-append [] ys = refl
migrate-append (x ∷ xs) ys = simp (migrate-append xs ys, append_assoc)

migrate_cons : (p : String) (ps : List String) → migrate (p ∷ ps) ≡ migrate_one p ++ migrate ps
unfolding migrate
migrate_cons p ps = refl

abbrev IsFixed : List String → Type 0
IsFixed vs = migrate vs ≡ vs

targets-IsFixed : All (λ (kv : String × List String). IsFixed kv.1) legacy_permission_map
unfolding legacy_permission_map migrate migrate_one
targets-IsFixed = search refl

lookup-All :
    (P : List String → Type 0) (k : String) (m : List (String × List String)) {vs : List String}
    → All (λ (kv : String × List String). P kv.1) m
    → lookup k m ≡ some vs
    → P vs
lookup-All P k [] h e = absurd (cc)
lookup-All P k ((j, ws) ∷ m) {vs} h e = elim (Bool-cases (str_eq j k)) [
  | inl s ↦ let q : ws ≡ vs = cc (rw s at e) in subst P q h.0
  | inr n ↦ lookup-All P k m h.1 (rw n at e)
]

migrate_one-IsFixed : (p : String) → IsFixed (migrate_one p)
migrate_one-IsFixed p = elim (Option-cases (lookup p legacy_permission_map)) [
  | inl e ↦ unfold migrate migrate_one in rw (e, e)
  | inr (vs, e) ↦
      unfold migrate_one in rw e (lookup-All IsFixed p legacy_permission_map targets-IsFixed e)
]

-- Migrating a role's permissions a second time changes nothing.
pub migrate_idem : (stored : List String) → migrate (migrate stored) ≡ migrate stored
migrate_idem [] = unfold migrate in refl
migrate_idem (p ∷ ps) =
    rw migrate_cons (rw (migrate-append, migrate_one-IsFixed p, migrate_idem ps) refl)

-- A name that is no legacy name, and that no legacy name stands for.
abbrev pub IsKept : String → Type 0
IsKept w =
    (lookup w legacy_permission_map ≡ none)
    × All (λ (kv : String × List String). str_elem w kv.1 ≡ false) legacy_permission_map

str_elem-migrate_one : (w p : String) → IsKept w → str_elem w (migrate_one p) ≡ str_eq p w
unfolding migrate_one
str_elem-migrate_one w p k = elim (Option-cases (lookup p legacy_permission_map)) [
  | inl e ↦ rw e (ground arith)
  | inr (vs, e) ↦
      let out : str_elem w vs ≡ false =
        lookup-All (λ ws. str_elem w ws ≡ false) p legacy_permission_map k.1 e in
      rw e (elim (Bool-cases (str_eq p w)) [
        | inl q ↦
            let same : p ≡ w = (str_eq_iff p w).0 q in
            let clash : none ≡ some vs =
              sym k.0 ∙ (ap (λ x. lookup x legacy_permission_map) (sym same) ∙ e) in
            absurd (cc clash)
        | inr q ↦ rw q out
      ])
]

-- Migration neither adds nor removes such a name.
pub str_elem-migrate :
    (w : String) (ps : List String) → IsKept w → str_elem w (migrate ps) ≡ str_elem w ps
unfolding migrate
str_elem-migrate w [] k = refl
str_elem-migrate w (p ∷ ps) k =
    rw any-append (ground (arith, str_elem-migrate_one w p k, str_elem-migrate w ps k))
