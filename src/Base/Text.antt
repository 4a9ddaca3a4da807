-- ===== src/Base/Text.antt =====
-- Texts as Python's `str`: `strip`, and the test for an empty text.
use Prim.Native.Char.{Char, code}
use Prim.Native.String.{String}
use mathlib.Core.Path.{◌≡◌, refl}
use mathlib.Core.Bool.{Bool, true, false, ◌&&◌, ◌||◌}
use mathlib.Core.Option.{Option, none, some}
use native.Mathlib.Omega.{arith}
use text.Mathlib.Text.{◌==◌ as str_eq}
use text.Mathlib.TextEquality.{eq_iff as str_eq_iff}
use arkon.Base.Tests.{leb, ◌==◌, if◌then◌else◌}

-- `str.isspace` of a character
unfoldable pub is_space : Char → Bool
is_space ch =
    let c = code ch in
    (leb 9 c && leb c 13)
    || ((leb 28 c && leb c 32)
        || (c == 0x85
            || (c == 0xa0
                || (c == 0x1680
                    || ((leb 0x2000 c && leb c 0x200a)
                        || (c == 0x2028
                            || (c == 0x2029 || (c == 0x202f || (c == 0x205f || c == 0x3000)))))))))

abbrev pub is_blank : String → Bool
is_blank String.[] = true
is_blank (String.◌∷◌ _ _) = false

-- `s.lstrip()`
unfoldable pub lstrip : String → String
lstrip String.[] = ""
lstrip (String.◌∷◌ c s) = let rest = lstrip s in if is_space c then rest else String.◌∷◌ c s

-- `s.rstrip()`
unfoldable pub rstrip : String → String
rstrip String.[] = ""
rstrip (String.◌∷◌ c s) =
    let rest = rstrip s in if is_space c && is_blank rest then "" else String.◌∷◌ c rest

-- `s.strip()`
unfoldable pub strip : String → String
strip s = rstrip (lstrip s)

-- `s or ""`
abbrev pub text_or_empty : Option String → String
text_or_empty none = ""
text_or_empty (some s) = s

-- `not (s or "")`
abbrev pub is_missing : Option String → Bool
is_missing none = true
is_missing (some s) = is_blank s

rstrip_idem : (s : String) → rstrip (rstrip s) ≡ rstrip s
unfolding rstrip
rstrip_idem String.[] = refl
rstrip_idem (String.◌∷◌ c s) = ground (arith, rstrip_idem s)

-- A text that begins with a character which is no space.
abbrev pub starts_solid : String → Bool
starts_solid String.[] = true
starts_solid (String.◌∷◌ c s) = if is_space c then false else true

starts_solid-lstrip : (s : String) → starts_solid (lstrip s) ≡ true
unfolding lstrip
starts_solid-lstrip String.[] = refl
starts_solid-lstrip (String.◌∷◌ c s) = ground (arith, starts_solid-lstrip s)

lstrip_solid : (s : String) → starts_solid s ≡ true → lstrip s ≡ s
unfolding lstrip
lstrip_solid String.[] h = refl
lstrip_solid (String.◌∷◌ c s) h = ground arith

starts_solid-rstrip : (s : String) → starts_solid s ≡ true → starts_solid (rstrip s) ≡ true
unfolding rstrip
starts_solid-rstrip String.[] h = refl
starts_solid-rstrip (String.◌∷◌ c s) h = ground arith

-- Stripping a second time changes nothing.
pub strip_idem : (s : String) → strip (strip s) ≡ strip s
unfolding strip
strip_idem s =
    rw (lstrip_solid (rstrip (lstrip s)) (starts_solid-rstrip (lstrip s) (starts_solid-lstrip s)))
      (rstrip_idem (lstrip s))

pub str_eq_self : (s : String) → str_eq s s ≡ true
str_eq_self s = (str_eq_iff s s).1 refl
