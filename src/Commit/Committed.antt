-- ===== src/Commit/Committed.antt =====
-- What the pages of one scope leave in the wiki, in `run_commit_phase` of app/ai/mrp/pipeline.py.
use arkon.Base.{
  ℕ, ◌+◌, ◌≡◌, refl, String, Bool, true, ◌||◌, Option, none, some, List, [], ◌∷◌, All, length,
  str_eq, all, Bool-cases, Option-cases, inl, inr, Result, ok, arith,
}
use arkon.Wiki.{WikiPage, WikiDb, WikiError, get_page_by_slug}
use arkon.Wiki.WellFormed.{WellFormed, created, apply_create-ok}
use arkon.Wiki.WellFormed.Cited.{Cited, Next, Next-nil, Next-trans}
use arkon.Wiki.WellFormed.Cited.Writes.{
  created-Next, created-Cited, updated_db, update_found-ok, updated-Next, updated-Cited,
}
use arkon.Commit.{
  PageWriteResult, Counts, Services, add_counts, no_counts, one_created, one_updated, new_page_of,
  final_content, create_page, update_or_create, commit_page, commit_pages,
}

-- the actions that the writers give
abbrev pub is_action : PageWriteResult → Bool
is_action pr = str_eq pr.action "CREATE" || str_eq pr.action "UPDATE"

abbrev pub total : Counts → ℕ
total c = c.pages_created + c.pages_updated

module _ (s : Services) (source_id : ℕ) where
  -- The wiki goes on to one where the page is cited, and it is counted once.
  record PageDone (outcome : Result WikiError (Counts × WikiDb)) (pr : PageWriteResult)
      (scope_type : String) (scope_id : Option ℕ) (db : WikiDb) : Type 0 where
    pub counts : Counts
    pub db' : WikiDb
    pub answered : outcome ≡ ok (counts, db')
    pub next : Next source_id db db'
    pub counted : total counts ≡ 1
    pub cited : Cited source_id pr.slug scope_type scope_id db'.pages

  module _ (pr : PageWriteResult) (scope_type : String) (scope_id : Option ℕ) (db : WikiDb)
      (w : WellFormed db) where
    create_page-PageDone :
        get_page_by_slug pr.slug scope_type scope_id db.pages ≡ none
        → PageDone (create_page s source_id pr scope_type scope_id db) pr scope_type scope_id db
    unfolding create_page
    create_page-PageDone free =
        let n = new_page_of s source_id pr scope_type scope_id in
        record {
          counts = one_created;
          db' = created n db;
          answered = rw (apply_create-ok n db w) refl;
          next = created-Next source_id n db w;
          counted = refl;
          cited = created-Cited source_id n db w free (ground arith);
        }

    update_page-PageDone :
        (page : WikiPage)
        → get_page_by_slug pr.slug scope_type scope_id db.pages ≡ some page
        → PageDone
            (update_or_create s source_id (some page) pr scope_type scope_id db)
            pr
            scope_type
            scope_id
            db
    unfolding update_or_create
    update_page-PageDone page found =
        let content = final_content s source_id page pr.content_md in
        record {
          counts = one_updated;
          db' =
              updated_db source_id content (some pr.summary) (some pr.title) s.kt_slug page db w
                pr.slug scope_type scope_id found;
          answered =
              rw
                (update_found-ok source_id content (some pr.summary) (some pr.title) s.kt_slug page
                  db w pr.slug scope_type scope_id found)
                refl;
          next =
              updated-Next source_id content (some pr.summary) (some pr.title) s.kt_slug page db w
                pr.slug scope_type scope_id found;
          counted = refl;
          cited =
              updated-Cited source_id content (some pr.summary) (some pr.title) s.kt_slug page db w
                pr.slug scope_type scope_id found;
        }

    commit_page-PageDone :
        is_action pr ≡ true
        → PageDone (commit_page s source_id pr scope_type scope_id db) pr scope_type scope_id db
    unfolding commit_page update_or_create
    commit_page-PageDone act = elim (Bool-cases (str_eq pr.action "CREATE")) [
      | inl c ↦ elim (Option-cases (get_page_by_slug pr.slug scope_type scope_id db.pages)) [
        | inl f ↦ rw (c, f) (create_page-PageDone f)
        | inr (page, f) ↦ rw (c, f) (update_page-PageDone page f)
      ]
      | inr c ↦
          let u : str_eq pr.action "UPDATE" ≡ true = ground arith in
          elim (Option-cases (get_page_by_slug pr.slug scope_type scope_id db.pages)) [
            | inl f ↦ rw (c, u, f) (create_page-PageDone f)
            | inr (page, f) ↦ rw (c, u, f) (update_page-PageDone page f)
          ]
    ]

  -- the same for all pages of a scope
  pub record PagesDone (outcome : Result WikiError (Counts × WikiDb)) (prs : List PageWriteResult)
      (scope_type : String) (scope_id : Option ℕ) (db : WikiDb) : Type 0 where
    pub counts : Counts
    pub db' : WikiDb
    pub answered : outcome ≡ ok (counts, db')
    pub next : Next source_id db db'
    pub counted : total counts ≡ length prs
    pub cited : All (λ pr. Cited source_id pr.slug scope_type scope_id db'.pages) prs

  pub commit_pages-PagesDone :
      (prs : List PageWriteResult) (scope_type : String) (scope_id : Option ℕ) (db : WikiDb)
      → WellFormed db
      → all is_action prs ≡ true
      → PagesDone (commit_pages s source_id prs scope_type scope_id db) prs scope_type scope_id db
  unfolding commit_pages add_counts
  commit_pages-PagesDone [] t id db w acts = record {
    counts = no_counts;
    db' = db;
    answered = refl;
    next = Next-nil source_id db w;
    counted = refl;
    cited = tt;
  }
  commit_pages-PagesDone (pr ∷ prs) t id db w acts =
      let one : PageDone (commit_page s source_id pr t id db) pr t id db =
        commit_page-PageDone pr t id db w (ground arith) in
      let rest : PagesDone (commit_pages s source_id prs t id one.db') prs t id one.db' =
        commit_pages-PagesDone prs t id one.db' one.next.well (ground arith) in
      let one_counted = one.counted in
      let rest_counted = rest.counted in
      record {
        counts = add_counts one.counts rest.counts;
        db' = rest.db';
        answered = rw (one.answered, rest.answered) refl;
        next = Next-trans source_id _ _ _ one.next rest.next;
        counted = omega arith;
        cited = (rest.next.keeps pr.slug t id one.cited, rest.cited);
      }
