-- ===== src/Wiki/WellFormed/Logs.antt =====
-- The pages `_index` and `_log` (`regenerate_index` and `append_log` of app/services/wiki_service.py)
-- in a well-formed wiki.
use arkon.Base.{
  ℕ, ◌≡◌, refl, String, Option, some, List, [], ◌∷◌, ◌++◌, ltb, all_mono, any, false, ◌==◌, arith,
  Option-cases, inl, inr,
}
use arkon.Wiki.{WikiPage, WikiDb, get_page, get_page_by_slug, set_page}
use arkon.Wiki.Rows.{
  UniqueIds-set_page, UniqueIds-append, all-set_page, all-get_page, get_page-found, any-below,
  ids_below-insert,
}
use arkon.Wiki.Covered.{covers, covers-set_page, covers-append}
use arkon.Wiki.Pages.{insert_page}
use arkon.Wiki.Logbook.{renewed, append_to, append_log, index_to, regenerate_index}
use arkon.Wiki.WellFormed.{WellFormed}

renewed-WellFormed :
    (content : String) (p : WikiPage) (db : WikiDb)
    → WellFormed db
    → get_page p.id db.pages ≡ some p
    → WellFormed (record db { pages = set_page (renewed content p) db.pages })
renewed-WellFormed content p db w h = record {
  ids_below =
      all-set_page (λ q. ltb q.id db.next_id) (renewed content p) db.pages
        (all-get_page (λ q. ltb q.id db.next_id) p.id db.pages p h w.ids_below) w.ids_below;
  unique_ids = UniqueIds-set_page (renewed content p) db.pages w.unique_ids;
  covered =
      all_mono (covers db.pages) (covers (set_page (renewed content p) db.pages)) db.revisions
        (covers-set_page (renewed content p) p db.pages h (ground arith)) w.covered;
  unique_versions = w.unique_versions;
}

inserted-WellFormed :
    (p : WikiPage) (db : WikiDb) → WellFormed db → p.id ≡ db.next_id → WellFormed (insert_page p db)
inserted-WellFormed p db w e =
    let free : any (λ q. q.id == p.id) db.pages ≡ false =
      rw e (any-below db.next_id db.pages w.ids_below) in
    record {
      ids_below = ids_below-insert p db.next_id db.pages e w.ids_below;
      unique_ids = UniqueIds-append p db.pages free w.unique_ids;
      covered =
          all_mono (covers db.pages) (covers (db.pages ++ p ∷ [])) db.revisions
            (covers-append p db.pages) w.covered;
      unique_versions = w.unique_versions;
    }

pub append_log-WellFormed :
    (ts entry scope_type : String) (scope_id : Option ℕ) (db : WikiDb)
    → WellFormed db
    → WellFormed (append_log ts entry scope_type scope_id db).1
unfolding append_log append_to get_page_by_slug
append_log-WellFormed ts entry scope_type scope_id db w =
    elim (Option-cases (get_page_by_slug "_log" scope_type scope_id db.pages)) [
      | inl a ↦ rw (append_log, a) (inserted-WellFormed _ db w refl)
      | inr (p, a) ↦
          rw (append_log, a)
            (renewed-WellFormed _ p db w (get_page-found _ db.pages p w.unique_ids a))
    ]

pub regenerate_index-WellFormed :
    (ordered : List WikiPage → List WikiPage) (scope_type : String) (scope_id : Option ℕ)
    (db : WikiDb)
    → WellFormed db
    → WellFormed (regenerate_index ordered scope_type scope_id db).1
unfolding regenerate_index index_to get_page_by_slug
regenerate_index-WellFormed ordered scope_type scope_id db w =
    elim (Option-cases (get_page_by_slug "_index" scope_type scope_id db.pages)) [
      | inl a ↦ rw (regenerate_index, a) (inserted-WellFormed _ db w refl)
      | inr (p, a) ↦
          rw (regenerate_index, a)
            (renewed-WellFormed _ p db w (get_page-found _ db.pages p w.unique_ids a))
    ]
