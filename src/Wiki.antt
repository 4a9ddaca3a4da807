-- ===== src/Wiki.antt =====
-- The wiki of app/services/wiki_service.py: its tables (WikiPage, WikiLink and WikiPageRevision of
-- app/database/models.py) and its queries. UUIDs are numbers, and a fresh one is the next number.
pub mod Links
pub mod Pages
pub mod Approval
pub mod Logbook
mod Rows
mod Covered
mod Examples
pub mod Detach
pub mod Deletion
pub mod Graph
pub mod WellFormed
use arkon.Base.{
  ℕ, suc, String, Bool, true, false, not, ◌&&◌, ◌||◌, ◌+◌, Option, none, some, List, [], ◌∷◌, ◌++◌,
  any, keep, find, map, ◌==◌, str_eq, str_elem, if◌then◌else◌, Result, ok, err,
}

pub record WikiPage : Type 0 where
  pub id : ℕ
  pub slug : String
  pub title : String
  pub page_type : String
  pub content_md : String
  pub summary : String
  pub scope_type : String
  pub scope_id : Option ℕ
  pub knowledge_type_slugs : List String
  pub source_ids : List ℕ
  pub version : ℕ

pub record WikiLink : Type 0 where
  pub from_page_id : ℕ
  pub to_slug : String

pub record WikiPageRevision : Type 0 where
  pub page_id : ℕ
  pub version : ℕ
  pub content_md : String
  pub change_type : String
  pub draft_id : Option ℕ
  pub changed_by_id : Option ℕ
  pub change_note : Option String

pub record WikiDb : Type 0 where
  pub pages : List WikiPage
  pub links : List WikiLink
  pub revisions : List WikiPageRevision
  pub next_id : ℕ

-- What the operations raise: `integrity_error` is the database's, at a unique index.
pub data WikiError : Type 0 where
  integrity_error : WikiError
  draft_conflict : ℕ → ℕ → WikiError
  slug_conflict : String → String → Option ℕ → WikiError
  value_error : String → WikiError

abbrev pub index_slug : String
index_slug = "_index"

abbrev pub log_slug : String
log_slug = "_log"

abbrev pub is_reserved : String → Bool
is_reserved slug = str_eq slug index_slug || str_eq slug log_slug

-- PAGE_TYPES
abbrev pub page_types : List String
page_types = "entity" ∷ "concept" ∷ "source" ∷ "topic" ∷ "index" ∷ "log" ∷ "digest" ∷ []

-- `WikiPage.scope_id == scope_id`, or `is_(None)`
abbrev pub same_scope_id : Option ℕ → Option ℕ → Bool
same_scope_id none none = true
same_scope_id (some a) (some b) = a == b
same_scope_id _ _ = false

-- `_scope_filter`
unfoldable pub scope_filter : String → Option ℕ → WikiPage → Bool
scope_filter scope_type scope_id p =
    str_eq p.scope_type scope_type && same_scope_id p.scope_id scope_id

-- `session.get(WikiPage, id)`
unfoldable pub get_page : ℕ → List WikiPage → Option WikiPage
get_page id pages = find (λ p. p.id == id) pages

-- `get_page_by_slug` with no knowledge types to respect
unfoldable pub get_page_by_slug : String → String → Option ℕ → List WikiPage → Option WikiPage
get_page_by_slug slug scope_type scope_id pages =
    find (λ p. str_eq p.slug slug && scope_filter scope_type scope_id p) pages

-- what `get_page_by_slug` lets through for `allowed_kt_slugs`
unfoldable pub allow_page : Option (List String) → WikiPage → Option WikiPage
allow_page none page = some page
allow_page (some allowed) page =
    if is_reserved page.slug then some page else elim page.knowledge_type_slugs [
      | [] ↦ some page
      | _ ∷ _ ↦ if any (λ s. str_elem s allowed) page.knowledge_type_slugs then some page else none
    ]

-- `page.version or 1`
abbrev pub or_one : ℕ → ℕ
or_one n = if n == 0 then 1 else n

-- The row of a page with new contents.
unfoldable pub set_page : WikiPage → List WikiPage → List WikiPage
set_page p [] = []
set_page p (q ∷ qs) = let rest = set_page p qs in if q.id == p.id then p ∷ qs else q ∷ rest

-- a revision of that page with that version
abbrev pub has_revision : ℕ → ℕ → List WikiPageRevision → Bool
has_revision page_id version rs = any (λ r. r.page_id == page_id && r.version == version) rs

-- `session.add(WikiPageRevision(…))`; (page_id, version) is unique
unfoldable pub add_revision : WikiPageRevision → WikiDb → Result WikiError WikiDb
add_revision r db =
    if has_revision r.page_id r.version db.revisions
    then err integrity_error
    else ok (record db { revisions = db.revisions ++ r ∷ [] })
