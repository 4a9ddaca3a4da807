-- ===== src/Wiki/Logbook.antt =====
-- The pages `_index` and `_log`: `regenerate_index` and `append_log` of
-- app/services/wiki_service.py. They are written without links and revisions.
use text.Mathlib.Text.{starts_with}
use Prim.Native.String.{◌++◌ as str_append, compare}
use text.Mathlib.Text.{is_lt}
use arkon.Base.{
  ℕ, ◌+◌, String, Bool, not, ◌&&◌, ◌||◌, Option, none, some, List, [], ◌∷◌, ◌++◌, keep, map, str_eq,
  if◌then◌else◌, strip, rstrip, is_blank,
}
use arkon.Wiki.{
  WikiPage, WikiDb, index_slug, log_slug, is_reserved, scope_filter, get_page_by_slug, or_one,
  set_page,
}
use arkon.Wiki.Pages.{insert_page}

-- a page of the system, as it is first made
abbrev pub system_page :
    ℕ → String → String → String → String → String → String → Option ℕ → WikiPage
system_page id slug title page_type summary content scope_type scope_id = record {
  id = id;
  slug = slug;
  title = title;
  page_type = page_type;
  content_md = content;
  summary = summary;
  scope_type = scope_type;
  scope_id = scope_id;
  knowledge_type_slugs = [];
  source_ids = [];
  version = 1;
}

-- the next version of a page, with that content
abbrev pub renewed : String → WikiPage → WikiPage
renewed content p = record p { content_md = content; version = or_one p.version + 1 }

-- `part in s`
unfoldable pub contains : String → String → Bool
contains part String.[] = starts_with "" part
contains part (String.◌∷◌ c s) =
    let rest = contains part s in starts_with (String.◌∷◌ c s) part || rest

-- `existing` of `append_log`
unfoldable pub existing_log : String → String
existing_log content =
    if is_blank content
    then "# Wiki Log\n"
    else if contains "_(empty" content
    then "# Wiki Log\n"
    else content

-- f"## [{ts}] {entry.strip()}"
unfoldable pub log_line : String → String → String
log_line ts entry = str_append "## [" (str_append ts (str_append "] " (strip entry)))

unfoldable pub append_to : Option WikiPage → String → String → Option ℕ → WikiDb → WikiPage × WikiDb
append_to none line scope_type scope_id db =
    let page =
      system_page db.next_id log_slug "Wiki Log" "log" "Chronological activity log"
        (str_append "# Wiki Log\n\n" (str_append line "\n")) scope_type scope_id in
    (page, insert_page page db)
append_to (some p) line scope_type scope_id db =
    let page =
      renewed
        (str_append (rstrip (existing_log p.content_md)) (str_append "\n\n" (str_append line "\n")))
        p in
    (page, record db { pages = set_page page db.pages })

unfoldable pub append_log : String → String → String → Option ℕ → WikiDb → WikiPage × WikiDb
append_log ts entry scope_type scope_id db =
    append_to (get_page_by_slug log_slug scope_type scope_id db.pages) (log_line ts entry)
      scope_type scope_id db

-- `by_type.setdefault(r.page_type, []).append(…)`
unfoldable pub add_to_type :
    WikiPage → List (String × List WikiPage) → List (String × List WikiPage)
add_to_type p [] = (p.page_type, p ∷ []) ∷ []
add_to_type p ((t, ps) ∷ groups) =
    let rest = add_to_type p groups in
    if str_eq t p.page_type then (t, ps ++ p ∷ []) ∷ groups else (t, ps) ∷ rest

unfoldable pub by_type :
    List (String × List WikiPage) → List WikiPage → List (String × List WikiPage)
by_type groups [] = groups
by_type groups (p ∷ ps) = by_type (add_to_type p groups) ps

-- `sorted` of the keys, which differ
unfoldable pub insert_type :
    String × List WikiPage → List (String × List WikiPage) → List (String × List WikiPage)
insert_type g [] = g ∷ []
insert_type (t, ps) ((u, qs) ∷ groups) =
    let rest = insert_type (t, ps) groups in
    if is_lt (compare t u) then (t, ps) ∷ (u, qs) ∷ groups else (u, qs) ∷ rest

unfoldable pub sort_types : List (String × List WikiPage) → List (String × List WikiPage)
sort_types [] = []
sort_types (g ∷ groups) = insert_type g (sort_types groups)

-- f"- [[{slug}|{title}]]{summary_part}"
unfoldable pub index_entry : WikiPage → String
index_entry p = str_append "- [[" (
    str_append p.slug (
      str_append "|" (
        str_append p.title
          (str_append "]]" (if str_eq p.summary "" then "" else str_append " — " p.summary)))))

-- `ptype.capitalize()`, for the types that a page can have (PAGE_TYPES)
unfoldable pub capitalize : String → String
capitalize t =
    if str_eq t "entity"
    then "Entity"
    else if str_eq t "concept"
    then "Concept"
    else if str_eq t "source"
    then "Source"
    else if str_eq t "topic"
    then "Topic"
    else if str_eq t "index"
    then "Index"
    else if str_eq t "log"
    then "Log"
    else if str_eq t "digest"
    then "Digest"
    else t

unfoldable pub group_lines : String × List WikiPage → List String
group_lines (t, ps) = (str_append "## " (capitalize t) ∷ "" ∷ map index_entry ps) ++ "" ∷ []

unfoldable pub all_lines : List (String × List WikiPage) → List String
all_lines [] = []
all_lines (g ∷ groups) = group_lines g ++ all_lines groups

-- `"\n".join`
unfoldable pub join_lines : List String → String
join_lines [] = ""
join_lines (l ∷ []) = l
join_lines (l ∷ m ∷ ls) = str_append l (str_append "\n" (join_lines (m ∷ ls)))

unfoldable pub index_lines : List (String × List WikiPage) → List String
index_lines [] = "# Wiki Index" ∷ "" ∷ "_(empty — no pages yet)_" ∷ []
index_lines (g ∷ groups) = "# Wiki Index" ∷ "" ∷ all_lines (sort_types (g ∷ groups))

-- `new_md`, of the rows that the query gives
unfoldable pub index_text : List WikiPage → String
index_text rows = str_append (rstrip (join_lines (index_lines (by_type [] rows)))) "\n"

unfoldable pub index_to : Option WikiPage → String → String → Option ℕ → WikiDb → WikiPage × WikiDb
index_to none new_md scope_type scope_id db =
    let page =
      system_page db.next_id index_slug "Wiki Index" "index" "Catalog of all wiki pages" new_md
        scope_type scope_id in
    (page, insert_page page db)
index_to (some p) new_md scope_type scope_id db =
    let page = renewed new_md p in (page, record db { pages = set_page page db.pages })

-- `regenerate_index`; `ordered` is the database's ORDER BY page_type, title
unfoldable pub regenerate_index :
    (List WikiPage → List WikiPage) → String → Option ℕ → WikiDb → WikiPage × WikiDb
regenerate_index ordered scope_type scope_id db =
    index_to (get_page_by_slug index_slug scope_type scope_id db.pages)
      (index_text (
        ordered
          (keep (λ p. not (is_reserved p.slug) && scope_filter scope_type scope_id p) db.pages)))
      scope_type scope_id db
