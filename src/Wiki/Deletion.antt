-- ===== src/Wiki/Deletion.antt =====
-- The deletion of a page with the references to it: `delete_page_cascade` of
-- app/services/wiki_service.py. The query for the pages that refer to it is LIKE; a slug in which LIKE
-- sees a wildcard selects more pages, in which nothing is replaced.
mod Examples
use Prim.Native.Char.{code}
use Prim.Native.String.{count, ◌++◌ as str_append}
use text.Mathlib.Text.{starts_with}
use arkon.Base.{
  ℕ, zero, suc, ◌+◌, ◌-◌, String, Bool, true, false, not, ◌&&◌, ◌||◌, Option, none, some, List, [],
  ◌∷◌, any, keep, map, ◌==◌, str_eq, if◌then◌else◌,
}
use arkon.Wiki.{WikiPage, WikiLink, WikiDb, scope_filter}
use arkon.Wiki.Links.{is_close}
use arkon.Wiki.Logbook.{contains}
use arkon.Wiki.Pages.{delete_page}

-- what follows the prefix
unfoldable pub without_prefix : String → String → Option String
without_prefix String.[] s = some s
without_prefix (String.◌∷◌ c prefix) String.[] = none
without_prefix (String.◌∷◌ c prefix) (String.◌∷◌ d s) =
    let rest = without_prefix prefix s in if code c == code d then rest else none

-- [^\]]+ at the start, if "]]" follows
unfoldable pub display_run : String → Option String
display_run String.[] = none
display_run (String.◌∷◌ c s) =
    let rest = display_run s in
    if is_close c
    then none
    else if starts_with s "]]"
    then some (String.◌∷◌ c "")
    else elim rest [ none ↦ none | some run ↦ some (String.◌∷◌ c run) ]

-- the match of the pattern at the start: what its group holds
unfoldable pub display_at : String → String → Option String
display_at opening s = elim (without_prefix opening s) [
  | none ↦ none
  | some rest ↦ display_run rest
]

-- `re.sub` of opening, display and "]]" by the display; so many characters belong to a match already
unfoldable pub replace_displays : String → ℕ → String → String
replace_displays opening skip String.[] = ""
replace_displays opening (suc skip) (String.◌∷◌ c s) = replace_displays opening skip s
replace_displays opening zero (String.◌∷◌ c s) = elim (display_at opening (String.◌∷◌ c s)) [
  | none ↦ String.◌∷◌ c (replace_displays opening zero s)
  | some run ↦ str_append run (replace_displays opening (count opening + count run + 1) s)
]

-- `s.replace(old, new)`
unfoldable pub replace_all : String → String → ℕ → String → String
replace_all old new skip String.[] = ""
replace_all old new (suc skip) (String.◌∷◌ c s) = replace_all old new skip s
replace_all old new zero (String.◌∷◌ c s) = elim (starts_with (String.◌∷◌ c s) old) [
  | true ↦ str_append new (replace_all old new (count old - 1) s)
  | false ↦ String.◌∷◌ c (replace_all old new zero s)
]

-- `slug.split("/")[-1]`
unfoldable pub last_segment : String → String
last_segment String.[] = ""
last_segment (String.◌∷◌ c s) =
    let rest = last_segment s in if code c == 0x2f || contains "/" s then rest else String.◌∷◌ c s

-- "[[slug|" and "[[slug]]"
abbrev pub opening_of : String → String
opening_of slug = str_append "[[" (str_append slug "|")

abbrev pub link_to : String → String
link_to slug = str_append "[[" (str_append slug "]]")

-- `cleaned`
unfoldable pub cleaned : String → String → String
cleaned slug content =
    replace_all (link_to slug) (last_segment slug) 0 (replace_displays (opening_of slug) 0 content)

abbrev pub refers : String → String → Bool
refers slug content = contains (link_to slug) content || contains (opening_of slug) content

-- `del_scope_type`
abbrev pub deleted_scope : WikiPage → String
deleted_scope page = if str_eq page.scope_type "" then "global" else page.scope_type

-- the pages whose references to the page go: all for a global page, those of its scope else
unfoldable pub is_in_reach : WikiPage → WikiPage → Bool
is_in_reach page q =
    str_eq (deleted_scope page) "global" || scope_filter (deleted_scope page) page.scope_id q

-- a link to the slug from such a page; for a global page its pages need not be there
abbrev pub is_incoming : WikiPage → List WikiPage → WikiLink → Bool
is_incoming page pages l =
    str_eq l.to_slug page.slug
    && (str_eq (deleted_scope page) "global"
        || any (λ q. q.id == l.from_page_id && is_in_reach page q) pages)

unfoldable pub cleaned_page : WikiPage → WikiPage → WikiPage
cleaned_page page q =
    if is_in_reach page q && (refers page.slug q.content_md && not (q.id == page.id))
    then record q { content_md = cleaned page.slug q.content_md }
    else q

unfoldable pub delete_page_cascade : WikiPage → WikiDb → WikiDb
delete_page_cascade page db = delete_page page.id (record db {
  pages = map (cleaned_page page) db.pages;
  links = keep (λ l. not (is_incoming page db.pages l)) db.links;
})
