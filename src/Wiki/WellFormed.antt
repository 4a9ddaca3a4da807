-- ===== src/Wiki/WellFormed.antt =====
-- The wiki's invariant, kept by `write_page` and `apply_create`
-- (`direct_edit_page`, `rollback_to_revision`, `apply_update` and `upsert_page` of
-- app/services/wiki_service.py end in one of them).
pub mod Drafts
pub mod Outcomes
pub mod Logs
pub mod Renewed
pub mod History
pub mod Upsert
pub mod Cited
pub mod Scoped
pub mod Deleted
use arkon.Base.{
  ℕ, suc, ◌+◌, ◌≤◌, ◌<◌, ◌≡◌, refl, String, Bool, true, false, ◌&&◌, ◌||◌, Option, none, some, List,
  [], ◌∷◌, ◌++◌, any, find, all, all_mono, all-append, ◌==◌, ltb, arith, Result, ok, err, ◌>>=◌,
  Bool-cases, Option-cases, inl, inr,
}
use arkon.Wiki.{
  WikiPage, WikiPageRevision, WikiDb, WikiError, get_page, set_page, or_one, add_revision,
  get_page_by_slug, has_revision,
}
use arkon.Wiki.Rows.{
  UniqueIds, UniqueVersions, get_page-id, get_page-set_page, UniqueIds-set_page, UniqueIds-append,
  UniqueVersions-append, get_page-append-new, all-set_page, all-get_page, get_page-below, any-below,
  ids_below-insert, get_page-found,
}
use arkon.Wiki.Covered.{
  covers, reaches, has_revision-later, has_revision-none, covers-set_page, covers-insert,
  covers-append,
}
use arkon.Wiki.Links.{refresh_links}
use arkon.Wiki.Pages.{revision_of, NewPage, fresh_page, insert_page, apply_create, write_page}

-- The ids are those given out, no two pages have the same, every revision is of a page and not ahead
-- of it, and no two revisions of a page have the same version.
pub record WellFormed (db : WikiDb) : Type 0 where
  pub ids_below : all (λ p. ltb p.id db.next_id) db.pages ≡ true
  pub unique_ids : UniqueIds db.pages
  pub covered : all (covers db.pages) db.revisions ≡ true
  pub unique_versions : UniqueVersions db.revisions

-- the database after `write_page`
abbrev pub written :
    WikiPage → String → String → Option ℕ → Option ℕ → Option String → WikiDb → WikiDb
written page content change_type draft_id changed_by_id comment db =
    let page' : WikiPage = record page {
      content_md = content;
      version = or_one page.version + 1;
    } in
    let db' = refresh_links page.id page.slug content db in
    record db' {
      pages = set_page page' db.pages;
      revisions = db.revisions ++ revision_of page' change_type draft_id changed_by_id comment ∷ [];
    }

module _ (page : WikiPage) (content change_type : String) (draft_id changed_by_id : Option ℕ)
    (comment : Option String) (db : WikiDb) (w : WellFormed db) (stored : WikiPage)
    (same : stored.version ≡ page.version) where
  -- The write of a page of a well-formed wiki goes through.
  pub write_page-ok :
      get_page page.id db.pages ≡ some stored
      → write_page page content change_type draft_id changed_by_id comment db
        ≡ ok (
          record page { content_md = content; version = or_one page.version + 1 },
          written page content change_type draft_id changed_by_id comment db,
        )
  unfolding write_page add_revision refresh_links
  write_page-ok h =
      rw
        (has_revision-later page.id stored (or_one page.version + 1) db.pages db.revisions h
          (ground arith) w.covered)
        refl

  pub written-WellFormed :
      get_page page.id db.pages ≡ some stored
      → WellFormed (written page content change_type draft_id changed_by_id comment db)
  unfolding refresh_links
  written-WellFormed h =
      let page' : WikiPage = record page {
        content_md = content;
        version = or_one page.version + 1;
      } in
      let r = revision_of page' change_type draft_id changed_by_id comment in
      let found : get_page page.id (set_page page' db.pages) ≡ some page' =
        get_page-set_page page' db.pages stored h in
      let same_id = get_page-id page.id db.pages stored h in
      let below : ltb stored.id db.next_id ≡ true =
        all-get_page (λ p. ltb p.id db.next_id) page.id db.pages stored h w.ids_below in
      record {
        ids_below =
            all-set_page (λ p. ltb p.id db.next_id) page' db.pages (ground arith) w.ids_below;
        unique_ids = UniqueIds-set_page page' db.pages w.unique_ids;
        covered =
            covers-insert page' db.pages (set_page page' db.pages) r db.revisions (omega arith)
              found (covers-set_page page' stored db.pages h (ground arith)) w.covered;
        unique_versions =
            UniqueVersions-append r db.revisions
              (has_revision-later page.id stored page'.version db.pages db.revisions h
                (ground arith) w.covered)
              w.unique_versions;
      }

-- the database after `apply_create`
abbrev pub created : NewPage → WikiDb → WikiDb
created n db =
    let page = fresh_page db.next_id n in
    let db' = refresh_links page.id n.slug n.content_md (insert_page page db) in
    record db' { revisions = db.revisions ++ revision_of page "agent_compile" none none none ∷ [] }

module _ (n : NewPage) (db : WikiDb) (w : WellFormed db) where
  no_such_page : get_page db.next_id db.pages ≡ none
  no_such_page = get_page-below db.next_id db.pages w.ids_below

  pub apply_create-ok : apply_create n db ≡ ok (fresh_page db.next_id n, created n db)
  unfolding apply_create add_revision refresh_links
  apply_create-ok =
      rw (has_revision-none db.next_id 1 db.pages db.revisions no_such_page w.covered) refl

  pub created-WellFormed : WellFormed (created n db)
  unfolding refresh_links
  created-WellFormed =
      let page = fresh_page db.next_id n in
      let r = revision_of page "agent_compile" none none none in
      let free : any (λ q. q.id == db.next_id) db.pages ≡ false =
        any-below db.next_id db.pages w.ids_below in
      record {
        ids_below = ids_below-insert page db.next_id db.pages refl w.ids_below;
        unique_ids = UniqueIds-append page db.pages free w.unique_ids;
        covered =
            covers-insert page db.pages (db.pages ++ page ∷ []) r db.revisions (omega arith)
              (get_page-append-new page db.pages free) (covers-append page db.pages) w.covered;
        unique_versions =
            UniqueVersions-append r db.revisions
              (has_revision-none db.next_id 1 db.pages db.revisions no_such_page w.covered)
              w.unique_versions;
      }

-- A page that a query finds is stored under its id.
pub found-stored :
    (f : WikiPage → Bool) (db : WikiDb) (p : WikiPage)
    → WellFormed db
    → find f db.pages ≡ some p
    → get_page p.id db.pages ≡ some p
found-stored f db p w h = get_page-found f db.pages p w.unique_ids h
