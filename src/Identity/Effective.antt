-- ===== src/Identity/Effective.antt =====
-- The permissions that an identity carries, beside those of the user.
use arkon.Base.{
  String, ◌≡◌, refl, Bool, true, ◌||◌, List, [], ◌∷◌, arith, keep, str_eq, str_elem, str_eq_iff,
  ◌∙◌,
}
use arkon.Access.{Employee, get_user_permissions, get_scope_level}
use arkon.Access.Strings.{scoped}
use arkon.Access.Catalog.{all_permissions}
use arkon.Identity.{insert_sorted, sorted_set, get_effective_permissions}

str_elem-insert_sorted :
    (r p : String) (qs : List String)
    → str_elem r (insert_sorted p qs) ≡ (str_eq p r || str_elem r qs)
unfolding insert_sorted
str_elem-insert_sorted r p [] = refl
str_elem-insert_sorted r p (q ∷ qs) = ground (arith, str_eq_iff p q, str_elem-insert_sorted r p qs)

str_elem-sorted_set : (r : String) (ps : List String) → str_elem r (sorted_set ps) ≡ str_elem r ps
unfolding sorted_set
str_elem-sorted_set r [] = refl
str_elem-sorted_set r (p ∷ ps) =
    ground (arith, str_elem-insert_sorted r p (sorted_set ps), str_elem-sorted_set r ps)

str_elem-keep :
    (f : String → Bool) (r : String) (ps : List String)
    → f r ≡ true
    → str_elem r (keep f ps) ≡ str_elem r ps
str_elem-keep f r [] h = refl
str_elem-keep f r (p ∷ ps) h = ground (arith, str_eq_iff p r, str_elem-keep f r ps)

-- A permission of the catalogue is in the sorted list of effective permissions exactly when the
-- user has it.
pub str_elem-get_effective_permissions :
    (user : Employee) (r : String)
    → str_elem r all_permissions ≡ true
    → str_elem r (get_effective_permissions user) ≡ str_elem r (get_user_permissions user)
unfolding get_effective_permissions
str_elem-get_effective_permissions user r h =
    str_elem-sorted_set r (keep (λ p. str_elem p all_permissions) (get_user_permissions user))
    ∙ str_elem-keep (λ p. str_elem p all_permissions) r (get_user_permissions user) h

-- The level for reading documents is the same for the effective permissions and for the user's.
pub get_scope_level-effective :
    (user : Employee)
    → get_scope_level (get_effective_permissions user) "doc" "read"
      ≡ get_scope_level (get_user_permissions user) "doc" "read"
unfolding get_scope_level scoped
get_scope_level-effective user = rw (
  str_elem-get_effective_permissions user "doc:read:all" refl,
  str_elem-get_effective_permissions user "doc:read:own_dept" refl,
)
