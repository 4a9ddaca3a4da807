-- ===== src/Wiki/Pages.antt =====
-- The operations on pages of app/services/wiki_service.py. An error leaves nothing written: the
-- caller's transaction is rolled back.
use Prim.Native.String.{◌++◌ as str_append}
use arkon.Base.{
  ℕ, suc, ◌+◌, String, not, ◌&&◌, ◌||◌, Option, none, some, List, [], ◌∷◌, ◌++◌, keep, find, elem,
  ◌==◌, str_eq, str_elem, if◌then◌else◌, Result, ok, err, ◌>>=◌,
}
use arkon.Wiki.{
  WikiPage, WikiPageRevision, WikiDb, WikiError, value_error, page_types, get_page_by_slug, or_one,
  set_page, add_revision,
}
use arkon.Wiki.Links.{refresh_links}

-- the revision of what a page now holds
abbrev pub revision_of : WikiPage → String → Option ℕ → Option ℕ → Option String → WikiPageRevision
revision_of p change_type draft_id changed_by_id change_note = record {
  page_id = p.id;
  version = p.version;
  content_md = p.content_md;
  change_type = change_type;
  draft_id = draft_id;
  changed_by_id = changed_by_id;
  change_note = change_note;
}

-- What the compiler or a contributor proposes for a new page.
pub record NewPage : Type 0 where
  pub slug : String
  pub title : String
  pub page_type : String
  pub content_md : String
  pub summary : String
  pub knowledge_type_slugs : List String
  pub source_ids : List ℕ
  pub scope_type : String
  pub scope_id : Option ℕ

abbrev pub fresh_page : ℕ → NewPage → WikiPage
fresh_page id n = record {
  id = id;
  slug = n.slug;
  title = n.title;
  page_type = if str_elem n.page_type page_types then n.page_type else "concept";
  content_md = n.content_md;
  summary = n.summary;
  scope_type = n.scope_type;
  scope_id = n.scope_id;
  knowledge_type_slugs = n.knowledge_type_slugs;
  source_ids = n.source_ids;
  version = 1;
}

-- `session.add(page)`
abbrev pub insert_page : WikiPage → WikiDb → WikiDb
insert_page p db = record db { pages = db.pages ++ p ∷ []; next_id = suc db.next_id }

unfoldable pub apply_create : NewPage → WikiDb → Result WikiError (WikiPage × WikiDb)
apply_create n db = do
  let page = fresh_page db.next_id n
  let db' = refresh_links page.id n.slug n.content_md (insert_page page db)
  db'' ← add_revision (revision_of page "agent_compile" none none none) db'
  ok (page, db'')

-- The common end of the writes: the page with its content and the next version, its links, and a
-- revision.
unfoldable pub write_page :
    WikiPage
    → String
    → String
    → Option ℕ
    → Option ℕ
    → Option String
    → WikiDb
    → Result WikiError (WikiPage × WikiDb)
write_page page content change_type draft_id changed_by_id change_note db = do
  let page' = record page { content_md = content; version = or_one page.version + 1 }
  let db' = refresh_links page.id page.slug content (record db { pages = set_page page' db.pages })
  db'' ← add_revision (revision_of page' change_type draft_id changed_by_id change_note) db'
  ok (page', db'')

-- `x if new is None else new`
abbrev pub replaced : Option String → String → String
replaced none old = old
replaced (some new) old = new

-- `add_knowledge_type_slug and add_knowledge_type_slug not in slugs`
abbrev pub with_slug : Option String → List String → List String
with_slug none slugs = slugs
with_slug (some s) slugs = if str_eq s "" || str_elem s slugs then slugs else slugs ++ s ∷ []

abbrev pub with_source : Option ℕ → List ℕ → List ℕ
with_source none ids = ids
with_source (some s) ids = if elem s ids then ids else ids ++ s ∷ []

abbrev pub updated : Option String → Option String → Option String → Option ℕ → WikiPage → WikiPage
updated summary title kt source_id p = record p {
  title = replaced title p.title;
  summary = replaced summary p.summary;
  knowledge_type_slugs = with_slug kt p.knowledge_type_slugs;
  source_ids = with_source source_id p.source_ids;
}

-- `apply_update` of the page that was found
unfoldable pub update_found :
    String
    → Option String
    → Option String
    → Option String
    → Option ℕ
    → WikiPage
    → WikiDb
    → Result WikiError (WikiPage × WikiDb)
update_found new_content summary title kt source_id page db =
    write_page (updated summary title kt source_id page) new_content "agent_compile" none none none
      db

abbrev pub head_option {ℓ} : {A : Type ℓ} → List A → Option A
head_option [] = none
head_option (x ∷ _) = some x

-- `upsert_page`: `apply_create`, or `apply_update` of the page that the slug and scope find
unfoldable pub upsert_found :
    Option WikiPage → NewPage → WikiDb → Result WikiError (WikiPage × WikiDb)
upsert_found none n db = apply_create n db
upsert_found (some page) n db =
    update_found n.content_md (some n.summary) (some n.title) (head_option n.knowledge_type_slugs)
      (head_option n.source_ids) page db

unfoldable pub upsert_page : NewPage → WikiDb → Result WikiError (WikiPage × WikiDb)
upsert_page n db = upsert_found (get_page_by_slug n.slug n.scope_type n.scope_id db.pages) n db

unfoldable pub direct_edit_page :
    WikiPage → ℕ → String → Option String → WikiDb → Result WikiError (WikiPage × WikiDb)
direct_edit_page page editor_id content change_note db =
    write_page page content "editor_edit" none (some editor_id) change_note db

unfoldable pub find_revision : ℕ → ℕ → List WikiPageRevision → Option WikiPageRevision
find_revision page_id version rs = find (λ r. r.page_id == page_id && r.version == version) rs

unfoldable pub restore :
    Option WikiPageRevision
    → WikiPage
    → Option String
    → ℕ
    → WikiDb
    → Result WikiError (WikiPage × WikiDb)
restore none page change_note actor_id db = err (value_error "revision not found")
restore (some r) page change_note actor_id db =
    write_page page r.content_md "rollback" none (some actor_id) change_note db

-- `rollback_to_revision`; the note is f"rollback to v{target_version}"
unfoldable pub rollback_to_revision :
    WikiPage → ℕ → (ℕ → String) → ℕ → WikiDb → Result WikiError (WikiPage × WikiDb)
rollback_to_revision page target_version decimal actor_id db =
    restore (find_revision page.id target_version db.revisions) page
      (some (str_append "rollback to v" (decimal target_version))) actor_id db

-- The rows that stay when a page is deleted: foreign keys cascade to its links and revisions.
unfoldable pub delete_page : ℕ → WikiDb → WikiDb
delete_page id db = record db {
  pages = keep (λ p. not (p.id == id)) db.pages;
  links = keep (λ l. not (l.from_page_id == id)) db.links;
  revisions = keep (λ r. not (r.page_id == id)) db.revisions;
}

-- the loop of `detach_source_from_wiki` over the pages that name the source
unfoldable pub detach_loop : ℕ → List WikiPage → ℕ → WikiDb → ℕ × WikiDb
detach_loop source_id [] deleted db = (deleted, db)
detach_loop source_id (page ∷ pages) deleted db =
    let remaining = keep (λ s. not (s == source_id)) page.source_ids in
    elim remaining [
      | [] ↦ detach_loop source_id pages (deleted + 1) (delete_page page.id db)
      | s ∷ rest ↦
          detach_loop source_id pages deleted
            (record db { pages = set_page (record page { source_ids = s ∷ rest }) db.pages })
    ]

unfoldable pub detach_source_from_wiki : ℕ → WikiDb → ℕ × WikiDb
detach_source_from_wiki source_id db =
    detach_loop source_id (keep (λ p. elem source_id p.source_ids) db.pages) 0 db
