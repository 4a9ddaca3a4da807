-- ===== src/Wiki/WellFormed/Cited/Writes.antt =====
-- The citations after `apply_create` and `apply_update` of app/services/wiki_service.py.
use arkon.Base.{
  ℕ, ◌≡◌, refl, String, true, Option, none, some, List, [], ◌∷◌, ◌++◌, elem, Bool-cases, inl, inr,
  ok, arith, str_eq_self, ◌+◌,
}
use arkon.Wiki.{WikiPage, WikiDb, get_page_by_slug, scope_filter, or_one}
use arkon.Wiki.Rows.{get_page-found}
use arkon.Wiki.Links.{refresh_links}
use arkon.Wiki.Pages.{NewPage, fresh_page, updated, with_source, update_found}
use arkon.Wiki.WellFormed.{
  WellFormed, created, created-WellFormed, written, written-WellFormed, write_page-ok,
}
use arkon.Wiki.WellFormed.Upsert.{find-set_page, find-append-new, find-holds, same_scope_id_self}
use arkon.Wiki.WellFormed.Cited.{Cited, Next, Cited-append, Cited-set_page}

elem-last : (x : ℕ) (ids : List ℕ) → elem x (ids ++ x ∷ []) ≡ true
elem-last x [] = ground arith
elem-last x (y ∷ ys) = ground (arith, elem-last x ys)

-- An update adds its source.
elem-with_source : (x : ℕ) (ids : List ℕ) → elem x (with_source (some x) ids) ≡ true
elem-with_source x ids = elim (Bool-cases (elem x ids)) [
  | inl e ↦ rw (e, e) refl
  | inr e ↦ rw e (elem-last x ids)
]

module _ (source : ℕ) (n : NewPage) (db : WikiDb) (w : WellFormed db) where
  pub created-Next : Next source db (created n db)
  unfolding refresh_links
  created-Next = record {
    well = created-WellFormed n db w;
    keeps = λ slug t id c. Cited-append source (fresh_page db.next_id n) db.pages slug t id c;
  }

  pub created-Cited :
      get_page_by_slug n.slug n.scope_type n.scope_id db.pages ≡ none
      → elem source n.source_ids ≡ true
      → Cited source n.slug n.scope_type n.scope_id (created n db).pages
  unfolding refresh_links get_page_by_slug scope_filter
  created-Cited free cites = (
    fresh_page db.next_id n,
    find-append-new _ (fresh_page db.next_id n) db.pages free
        (rw (str_eq_self n.slug, str_eq_self n.scope_type, same_scope_id_self n.scope_id) refl),
    cites,
  )

module _ (source : ℕ) (content : String) (summary title kt : Option String) (page : WikiPage)
    (db : WikiDb) (w : WellFormed db) (slug scope_type : String) (scope_id : Option ℕ)
    (found : get_page_by_slug slug scope_type scope_id db.pages ≡ some page) where
  abbrev page' : WikiPage
  page' = updated summary title kt (some source) page

  abbrev pub updated_db : WikiDb
  updated_db = written page' content "agent_compile" none none none db

  pub update_found-ok :
      update_found content summary title kt (some source) page db
      ≡ ok (record page' { content_md = content; version = or_one page.version + 1 }, updated_db)
  unfolding update_found get_page_by_slug
  update_found-ok =
      write_page-ok page' content "agent_compile" none none none db w page refl
        (get_page-found _ db.pages page w.unique_ids found)

  pub updated-Next : Next source db updated_db
  unfolding refresh_links get_page_by_slug
  updated-Next =
      let stored = get_page-found _ db.pages page w.unique_ids found in
      record {
        well =
            written-WellFormed page' content "agent_compile" none none none db w page refl stored;
        keeps =
            Cited-set_page source
              (record page' { content_md = content; version = or_one page.version + 1 }) page
              db.pages stored refl refl refl (λ _. elem-with_source source page.source_ids);
      }

  pub updated-Cited : Cited source slug scope_type scope_id updated_db.pages
  unfolding refresh_links get_page_by_slug scope_filter
  updated-Cited = (
    record page' { content_md = content; version = or_one page.version + 1 },
    find-set_page _ _ page db.pages w.unique_ids found refl (find-holds _ db.pages page found),
    elem-with_source source page.source_ids,
  )
