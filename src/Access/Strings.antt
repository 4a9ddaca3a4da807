-- ===== src/Access/Strings.antt =====
-- Permission names: `resource:action:scope` (parse_permission of
-- app/services/permission_engine.py, and `str.split(":")`).
pub mod Roundtrip
use Prim.Native.Char.{Char, code}
use Prim.Native.String.{◌++◌ as str_append}
use arkon.Base.{String, List, [], ◌∷◌, Bool, ◌==◌, if◌then◌else◌}

-- f"{resource}:{action}:{scope}"
unfoldable pub scoped : String → String → String → String
scoped resource action scope =
    str_append resource (str_append ":" (str_append action (str_append ":" scope)))

-- the first part grows by a character
abbrev pub grow : Char → List String → List String
grow c [] = String.◌∷◌ c "" ∷ []
grow c (p ∷ ps) = String.◌∷◌ c p ∷ ps

abbrev pub is_colon : Char → Bool
is_colon c = code c == b':'

-- s.split(":")
unfoldable pub split : String → List String
split String.[] = "" ∷ []
split (String.◌∷◌ c s) = let parts = split s in if is_colon c then "" ∷ parts else grow c parts

abbrev pub three : String → List String → String × String × String
three perm (a ∷ b ∷ c ∷ []) = (a, b, c)
three perm _ = (perm, "", "")

unfoldable pub parse_permission : String → String × String × String
parse_permission perm = three perm (split perm)
