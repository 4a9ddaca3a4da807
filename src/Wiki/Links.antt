-- ===== src/Wiki/Links.antt =====
-- Wikilinks: `extract_wikilinks` and `refresh_links` of app/services/wiki_service.py. The matcher is
-- that of the pattern \[\[([^\]\|]+)(?:\|[^\]*)?]]: what the class of the first group leaves is
-- "]" or "|", so no other split of the text has to be tried.
use Prim.Native.Char.{Char, code}
use Prim.Native.String.{count}
use arkon.Base.{
  ℕ, zero, suc, ◌+◌, ◌-◌, String, Bool, false, not, ◌&&◌, ◌||◌, Option, none, some, List, [], ◌∷◌,
  ◌++◌, keep, map, ◌==◌, str_eq, str_elem, if◌then◌else◌, strip, is_blank,
}
use arkon.Wiki.{WikiLink, WikiDb}

abbrev pub is_bar : Char → Bool
is_bar c = code c == 0x7c

abbrev pub is_close : Char → Bool
is_close c = code c == 0x5d

abbrev pub is_open : Char → Bool
is_open c = code c == 0x5b

-- [^\]\|]*, as long as it goes
unfoldable pub slug_run : String → String
slug_run String.[] = ""
slug_run (String.◌∷◌ c s) =
    let rest = slug_run s in if is_bar c || is_close c then "" else String.◌∷◌ c rest

-- what stands behind it
unfoldable pub after_run : String → String
after_run String.[] = ""
after_run (String.◌∷◌ c s) =
    let rest = after_run s in if is_bar c || is_close c then String.◌∷◌ c s else rest

-- "]]" at the front
abbrev pub closes : String → Bool
closes (String.◌∷◌ c (String.◌∷◌ d s)) = is_close c && is_close d
closes _ = false

-- [^\]]*]]: the number of characters, if it matches
unfoldable pub label_length : String → Option ℕ
label_length String.[] = none
label_length (String.◌∷◌ c s) =
    let rest = label_length s in
    if is_close c
    then (if closes (String.◌∷◌ c s) then some 2 else none)
    else elim rest [ none ↦ none | some n ↦ some (suc n) ]

-- (?:\|[^\]]*)?]]
unfoldable pub tail_length : String → Option ℕ
tail_length String.[] = none
tail_length (String.◌∷◌ c s) =
    if is_bar c
    then elim (label_length s) [ none ↦ none | some n ↦ some (suc n) ]
    else if closes (String.◌∷◌ c s)
    then some 2
    else none

-- the group and the length of a match behind "[["
unfoldable pub match_inner : String → Option (String × ℕ)
match_inner s = if is_blank (slug_run s) then none else elim (tail_length (after_run s)) [
  | none ↦ none
  | some n ↦ some (slug_run s, 2 + count (slug_run s) + n)
]

unfoldable pub match_at : String → Option (String × ℕ)
match_at (String.◌∷◌ c (String.◌∷◌ d s)) = if is_open c && is_open d then match_inner s else none
match_at _ = none

-- `finditer`: the groups of the matches from left to right; the number is what is left of the last
-- match
unfoldable pub find_groups : ℕ → String → List String
find_groups skip String.[] = []
find_groups (suc skip) (String.◌∷◌ c s) = find_groups skip s
find_groups zero (String.◌∷◌ c s) = elim (match_at (String.◌∷◌ c s)) [
  | none ↦ find_groups 0 s
  | some (group, n) ↦ group ∷ find_groups (n - 1) s
]

-- the loop of `extract_wikilinks`
unfoldable pub collect : List String → List String → List String
collect seen [] = []
collect seen (g ∷ gs) =
    let slug = strip g in
    let skip = collect seen gs in
    let kept = slug ∷ collect (slug ∷ seen) gs in
    if not (is_blank slug) && not (str_elem slug seen) then kept else skip

unfoldable pub extract_wikilinks : String → List String
extract_wikilinks content_md = collect [] (find_groups 0 content_md)

abbrev pub link_of : ℕ → String → WikiLink
link_of from_page_id to_slug = record { from_page_id = from_page_id; to_slug = to_slug }

-- The targets of a page: without its own slug.
unfoldable pub targets_of : String → String → List String
targets_of from_slug content_md =
    keep (λ s. not (str_eq s from_slug)) (extract_wikilinks content_md)

-- `refresh_links`; the targets are distinct and the old edges are gone, so the insertion meets no
-- conflict
unfoldable pub refresh_links : ℕ → String → String → WikiDb → WikiDb
refresh_links from_page_id from_slug content_md db =
    let others = keep (λ l. not (l.from_page_id == from_page_id)) db.links in
    record db { links = others ++ map (link_of from_page_id) (targets_of from_slug content_md) }
