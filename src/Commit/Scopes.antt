-- ===== src/Commit/Scopes.antt =====
-- What all scopes leave in the wiki, in `run_commit_phase` of app/ai/mrp/pipeline.py.
use arkon.Base.{
  ℕ, ◌*◌, ◌≡◌, refl, String, true, Option, none, some, List, [], ◌∷◌, All, All-mono, length, all,
  Result, ok, arith,
}
use arkon.Wiki.{WikiDb, WikiError}
use arkon.Wiki.WellFormed.{WellFormed}
use arkon.Wiki.WellFormed.Cited.{
  Cited, Next, Next-nil, Next-trans, append_log-Next, regenerate_index-Next,
}
use arkon.Commit.{
  PageWriteResult, SourceRow, Tables, Counts, Services, find_source, resolve_wiki_scopes,
  add_counts, no_counts, commit_pages, log_entry, write_logbook, commit_scopes, mark_ready,
  run_commit_phase,
}
use arkon.Commit.Committed.{is_action, total, PagesDone, commit_pages-PagesDone}

module _ (s : Services) (source_id : ℕ) where
  module _ (source : SourceRow) (prs : List PageWriteResult) where
    abbrev pub AllCited : WikiDb → String × Option ℕ → Type 0
    AllCited db (t, id) = All (λ pr. Cited source_id pr.slug t id db.pages) prs

    -- the same for all scopes
    record ScopesDone (outcome : Result WikiError (Counts × WikiDb))
        (scopes : List (String × Option ℕ)) (db : WikiDb) : Type 0 where
      pub counts : Counts
      pub db' : WikiDb
      pub answered : outcome ≡ ok (counts, db')
      pub next : Next source_id db db'
      pub counted : total counts ≡ length scopes * length prs
      pub cited : All (AllCited db') scopes

    write_logbook-Next :
        (c : Counts) (t : String) (id : Option ℕ) (db : WikiDb)
        → WellFormed db
        → Next source_id db (write_logbook s source_id source c t id db)
    write_logbook-Next c t id db w =
        let index = regenerate_index-Next source_id s.ordered t id db w in
        Next-trans source_id _ _ _ index
          (append_log-Next source_id s.timestamp (log_entry s source_id source c) t id _ index.well)

    commit_scopes-ScopesDone :
        (scopes : List (String × Option ℕ)) (db : WikiDb)
        → WellFormed db
        → all is_action prs ≡ true
        → ScopesDone (commit_scopes s source_id source prs scopes db) scopes db
    unfolding commit_scopes add_counts
    commit_scopes-ScopesDone [] db w acts = record {
      counts = no_counts;
      db' = db;
      answered = refl;
      next = Next-nil source_id db w;
      counted = omega arith;
      cited = tt;
    }
    commit_scopes-ScopesDone ((t, id) ∷ scopes) db w acts =
        let one : PagesDone s source_id (commit_pages s source_id prs t id db) prs t id db =
          commit_pages-PagesDone s source_id prs t id db w acts in
        let logged = write_logbook-Next one.counts t id one.db' one.next.well in
        let rest : ScopesDone
            (commit_scopes s source_id source prs scopes
              (write_logbook s source_id source one.counts t id one.db'))
            scopes (write_logbook s source_id source one.counts t id one.db') =
          commit_scopes-ScopesDone scopes _ logged.well acts in
        let after = Next-trans source_id _ _ _ logged rest.next in
        let one_counted = one.counted in
        let rest_counted = rest.counted in
        record {
          counts = add_counts one.counts rest.counts;
          db' = rest.db';
          answered = rw (one.answered, rest.answered) refl;
          next = Next-trans source_id _ _ _ one.next after;
          counted = omega arith;
          cited = (All-mono _ _ (λ pr c. after.keeps pr.slug t id c) prs one.cited, rest.cited);
        }

-- From a well-formed wiki, and with pages whose action is CREATE or UPDATE, the phase ends without an
-- error, whatever the language model merges. The wiki is well-formed then; in every scope of the source
-- the slug of every page finds a page that cites the source; and the counts of pages created and
-- updated add up to the pages, once for each scope.
pub run_commit_phase-commits :
    (s : Services) (source : SourceRow) (prs : List PageWriteResult) (t : Tables)
    → WellFormed t.wiki
    → all is_action prs ≡ true
    → (c : Counts) × (t' : Tables) × (run_commit_phase s source prs t ≡ ok (c, t'))
      × WellFormed t'.wiki
      × All
          (λ scope. AllCited s source.id source prs t'.wiki scope)
          (resolve_wiki_scopes (find_source source.id t.sources) t.source_departments)
      × (total c
          ≡ length (resolve_wiki_scopes (find_source source.id t.sources) t.source_departments)
            * length prs)
unfolding run_commit_phase
run_commit_phase-commits s source prs t w acts =
    let scopes = resolve_wiki_scopes (find_source source.id t.sources) t.source_departments in
    let done : ScopesDone s source.id source prs
        (commit_scopes s source.id source prs scopes t.wiki) scopes t.wiki =
      commit_scopes-ScopesDone s source.id source prs scopes t.wiki w acts in
    (
      done.counts,
      record t {
        wiki = done.db';
        sources = mark_ready source.id t.sources;
        plan_status = elim t.plan_status [ none ↦ none | some _ ↦ some "done" ];
      },
      rw done.answered refl,
      done.next.well,
      done.cited,
      done.counted,
    )
