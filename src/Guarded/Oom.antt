-- ===== src/Guarded/Oom.antt =====
-- Which errors look like a lack of memory: `_is_oom` of
-- app/ai/local_orchestrator/lms_client_guarded.py, the search of the pattern in the error's text.
use Prim.Native.Char.{Char, code}
use arkon.Base.{
  ◌+◌, String, Bool, true, false, ◌&&◌, ◌||◌, Option, none, some, List, [], ◌∷◌, any, leb, ◌==◌,
  if◌then◌else◌,
}

-- A small letter of the pattern matches in both cases; two more characters count as an i, one as an s.
abbrev pub matches : Char → Char → Bool
matches c d =
    code c == code d
    || (leb 65 (code d) && leb (code d) 90 && code d + 32 == code c)
    || (code c == 105 && (code d == 304 || code d == 305))
    || (code c == 115 && code d == 383)

-- what follows the part, if the text begins with it
unfoldable pub strip_part : String → String → Option String
strip_part String.[] s = some s
strip_part (String.◌∷◌ c part) String.[] = none
strip_part (String.◌∷◌ c part) (String.◌∷◌ d s) =
    let rest = strip_part part s in if matches c d then rest else none

-- what follows the part where it first stands in the text
unfoldable pub search_part : String → String → Option String
search_part part String.[] = strip_part part String.[]
search_part part (String.◌∷◌ c s) =
    let rest = search_part part s in
    elim (strip_part part (String.◌∷◌ c s)) [ none ↦ rest | some r ↦ some r ]

-- the parts one after another, with anything between them
unfoldable pub search_parts : List String → String → Bool
search_parts [] s = true
search_parts (part ∷ parts) s = elim (search_part part s) [
  | none ↦ false
  | some rest ↦ search_parts parts rest
]

-- _OOM_PATTERN
abbrev pub oom_pattern : List (List String)
oom_pattern =
    ("out of memory" ∷ [])
    ∷ ("oom" ∷ [])
    ∷ ("allocation failed" ∷ [])
    ∷ ("insufficient memory" ∷ [])
    ∷ ("metal" ∷ "memory" ∷ [])
    ∷ ("mps" ∷ "out" ∷ [])
    ∷ ("insufficient" ∷ "resource" ∷ [])
    ∷ []

unfoldable pub is_oom : String → Bool
is_oom message = any (λ parts. search_parts parts message) oom_pattern
