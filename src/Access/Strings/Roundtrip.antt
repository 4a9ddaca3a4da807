-- ===== src/Access/Strings/Roundtrip.antt =====
-- Splitting a permission name gives back its parts.
use Prim.Native.Char.{Char}
use Prim.Native.String.{◌++◌ as str_append}
use text.Mathlib.TextLemmas.{nil-append, cons-append}
use arkon.Base.{String, ◌≡◌, refl, Bool, false, ◌||◌, [], ◌∷◌, arith, if◌then◌else◌}
use arkon.Access.Strings.{scoped, split, is_colon, grow, parse_permission}

abbrev pub has_colon : String → Bool
has_colon String.[] = false
has_colon (String.◌∷◌ c s) = is_colon c || has_colon s

split_cons :
    (c : Char) (s : String)
    → split (String.◌∷◌ c s) ≡ (if is_colon c then "" ∷ split s else grow c (split s))
unfolding split
split_cons c s = refl

-- a part without a colon, a colon and a rest
pub split-append :
    (p rest : String)
    → has_colon p ≡ false
    → split (str_append p (str_append ":" rest)) ≡ p ∷ split rest
split-append String.[] rest h = rw (nil-append, cons-append, nil-append, split_cons)
split-append (String.◌∷◌ c s) rest h =
    rw (cons-append, split_cons) (ground (arith, split-append s rest))

pub split_self : (p : String) → has_colon p ≡ false → split p ≡ p ∷ []
split_self String.[] h = unfold split in refl
split_self (String.◌∷◌ c s) h = rw split_cons (ground (arith, split_self s))

-- A name composed of a resource, an action and a scope without colons is parsed into them.
pub parse_permission-scoped :
    (resource action scope : String)
    → has_colon resource ≡ false
    → has_colon action ≡ false
    → has_colon scope ≡ false
    → parse_permission (scoped resource action scope) ≡ (resource, action, scope)
unfolding parse_permission scoped
parse_permission-scoped resource action scope r a s =
    rw (split-append resource _ r, split-append action _ a, split_self scope s)
