-- ===== src/Commit.antt =====
-- The last phase of the compilation of a source, which writes the pages into the wiki:
-- `run_commit_phase` of app/ai/mrp/pipeline.py. Embeddings, which no other part reads and whose
-- errors are caught, are left out. An error of a page aborts the database's transaction, so the phase
-- raises at the next query.
pub mod Merger
pub mod Committed
pub mod Scopes
mod Examples
use Prim.Native.String.{count, ◌++◌ as str_append}
use arkon.Base.{
  ℕ, ◌+◌, String, Bool, true, false, not, ◌&&◌, Option, none, some, List, [], ◌∷◌, find, map, keep,
  elem, ltb, ◌==◌, str_eq, strip, if◌then◌else◌, Result, ok, err, ◌>>=◌,
}
use arkon.Contribution.Effects.{decimal}
use arkon.Wiki.{WikiPage, WikiDb, WikiError, get_page_by_slug}
use arkon.Wiki.Pages.{NewPage, apply_create, update_found}
use arkon.Wiki.Logbook.{append_log, regenerate_index}
use arkon.Commit.Merger.{merge_page_content}

-- A page that the writers made.
pub record PageWriteResult : Type 0 where
  pub slug : String
  pub title : String
  pub page_type : String
  pub action : String
  pub content_md : String
  pub summary : String

-- A source, with the columns that the phase reads or writes.
pub record SourceRow : Type 0 where
  pub id : ℕ
  pub title : String
  pub file_name : String
  pub scope_type : String
  pub scope_id : Option ℕ
  pub pipeline_phase : String
  pub status : String
  pub progress : ℕ
  pub progress_message : String
  pub error_message : Option String
  pub auto_recover_count : ℕ

pub record Tables : Type 0 where
  pub wiki : WikiDb
  pub sources : List SourceRow
  pub source_departments : List (ℕ × ℕ)
  pub plan_status : Option String

pub record Counts : Type 0 where
  pub pages_created : ℕ
  pub pages_updated : ℕ

abbrev pub find_source : ℕ → List SourceRow → Option SourceRow
find_source id sources = find (λ s. s.id == id) sources

-- the scopes of the departments, or the global one if there are none
abbrev pub or_global : List ℕ → List (String × Option ℕ)
or_global [] = ("global", none) ∷ []
or_global (d ∷ ds) = map (λ id. ("department", some id)) (d ∷ ds)

-- `_resolve_wiki_scopes`
unfoldable pub resolve_wiki_scopes : Option SourceRow → List (ℕ × ℕ) → List (String × Option ℕ)
resolve_wiki_scopes none departments = ("global", none) ∷ []
resolve_wiki_scopes (some s) departments =
    if str_eq s.scope_type "project"
    then ("project", s.scope_id) ∷ []
    else or_global (map (λ r. r.1) (keep (λ r. r.0 == s.id) departments))

abbrev pub to_list : Option String → List String
to_list none = []
to_list (some s) = if str_eq s "" then [] else s ∷ []

abbrev pub or_else : String → String → String
or_else s t = if str_eq s "" then t else s

unfoldable pub add_counts : Counts → Counts → Counts
add_counts a b = record {
  pages_created = a.pages_created + b.pages_created;
  pages_updated = a.pages_updated + b.pages_updated;
}

abbrev pub no_counts : Counts
no_counts = record { pages_created = 0; pages_updated = 0 }

abbrev pub one_created : Counts
one_created = record { pages_created = 1; pages_updated = 0 }

abbrev pub one_updated : Counts
one_updated = record { pages_created = 0; pages_updated = 1 }

-- What the phase gets from outside: the language model for merges, if one is configured, the
-- knowledge type, the database's order of the rows of the index, the time and an id as texts.
pub record Services : Type 0 where
  pub merge_llm : Option (String → String → Option String)
  pub kt_slug : Option String
  pub ordered : List WikiPage → List WikiPage
  pub timestamp : String
  pub id_text : ℕ → String

module _ (s : Services) (source_id : ℕ) where
  abbrev pub new_page_of : PageWriteResult → String → Option ℕ → NewPage
  new_page_of pr scope_type scope_id = record {
    slug = pr.slug;
    title = pr.title;
    page_type = pr.page_type;
    content_md = pr.content_md;
    summary = pr.summary;
    knowledge_type_slugs = to_list s.kt_slug;
    source_ids = source_id ∷ [];
    scope_type = scope_type;
    scope_id = scope_id;
  }

  -- whether a page that another source wrote is merged with the new content
  abbrev pub is_merged : WikiPage → Bool
  is_merged page = not (elem source_id page.source_ids) && ltb 100 (count (strip page.content_md))

  -- `final_content`
  unfoldable pub final_content : WikiPage → String → String
  final_content page content = elim s.merge_llm [
    | none ↦ content
    | some generate ↦
        if is_merged page then merge_page_content generate page.content_md content else content
  ]

  -- `apply_create`, counted
  unfoldable pub create_page :
      PageWriteResult → String → Option ℕ → WikiDb → Result WikiError (Counts × WikiDb)
  create_page pr scope_type scope_id db = do
    (_, db') ← apply_create (new_page_of pr scope_type scope_id) db
    ok (one_created, db')

  -- the block for the action UPDATE, of the page that was found
  unfoldable pub update_or_create :
      Option WikiPage
      → PageWriteResult
      → String
      → Option ℕ
      → WikiDb
      → Result WikiError (Counts × WikiDb)
  update_or_create none pr scope_type scope_id db = create_page pr scope_type scope_id db
  update_or_create (some page) pr scope_type scope_id db = do
    (_, db') ←
        update_found (final_content page pr.content_md) (some pr.summary) (some pr.title) s.kt_slug
          (some source_id) page db
    ok (one_updated, db')

  -- the body of the loop over the pages: a page to create that is already there is updated
  unfoldable pub commit_page :
      PageWriteResult → String → Option ℕ → WikiDb → Result WikiError (Counts × WikiDb)
  commit_page pr scope_type scope_id db =
      let existing = get_page_by_slug pr.slug scope_type scope_id db.pages in
      if str_eq pr.action "CREATE"
      then elim existing [
        | none ↦ create_page pr scope_type scope_id db
        | some page ↦ update_or_create (some page) pr scope_type scope_id db
      ]
      else if str_eq pr.action "UPDATE"
      then update_or_create existing pr scope_type scope_id db
      else ok (no_counts, db)

  unfoldable pub commit_pages :
      List PageWriteResult → String → Option ℕ → WikiDb → Result WikiError (Counts × WikiDb)
  commit_pages [] scope_type scope_id db = ok (no_counts, db)
  commit_pages (pr ∷ prs) scope_type scope_id db = do
    (one, db') ← commit_page pr scope_type scope_id db
    (rest, db'') ← commit_pages prs scope_type scope_id db'
    ok (add_counts one rest, db'')

  -- `log_entry`
  abbrev pub log_entry : SourceRow → Counts → String
  log_entry source c = str_append "MRP: ingested '" (
      str_append (or_else source.title (or_else source.file_name (s.id_text source.id))) (
        str_append "': +" (
          str_append (decimal c.pages_created)
            (str_append " created, ~" (str_append (decimal c.pages_updated) " updated")))))

  -- the index and the log of a scope
  abbrev pub write_logbook : SourceRow → Counts → String → Option ℕ → WikiDb → WikiDb
  write_logbook source c scope_type scope_id db =
      (append_log s.timestamp (log_entry source c) scope_type scope_id
        (regenerate_index s.ordered scope_type scope_id db).1).1

  -- the loop over the scopes
  unfoldable pub commit_scopes :
      SourceRow
      → List PageWriteResult
      → List (String × Option ℕ)
      → WikiDb
      → Result WikiError (Counts × WikiDb)
  commit_scopes source prs [] db = ok (no_counts, db)
  commit_scopes source prs ((scope_type, scope_id) ∷ scopes) db = do
    (one, db') ← commit_pages prs scope_type scope_id db
    (rest, db'') ←
        commit_scopes source prs scopes (write_logbook source one scope_type scope_id db')
    ok (add_counts one rest, db'')

abbrev pub ready : SourceRow → SourceRow
ready r = record r {
  pipeline_phase = "commit";
  status = "ready";
  progress = 100;
  progress_message = "Done";
  error_message = none;
  auto_recover_count = 0;
}

unfoldable pub mark_ready : ℕ → List SourceRow → List SourceRow
mark_ready id [] = []
mark_ready id (r ∷ rs) = (if r.id == id then ready r else r) ∷ mark_ready id rs

-- `run_commit_phase`; `source` is the worker's copy of the row
unfoldable pub run_commit_phase :
    Services → SourceRow → List PageWriteResult → Tables → Result WikiError (Counts × Tables)
run_commit_phase s source prs t = do
  let scopes = resolve_wiki_scopes (find_source source.id t.sources) t.source_departments
  (c, wiki) ← commit_scopes s source.id source prs scopes t.wiki
  ok (
    c,
    record t {
      wiki = wiki;
      sources = mark_ready source.id t.sources;
      plan_status = elim t.plan_status [ none ↦ none | some _ ↦ some "done" ];
    },
  )
