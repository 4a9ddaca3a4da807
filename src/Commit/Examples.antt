-- ===== src/Commit/Examples.antt =====
-- A commit of two pages into a wiki of one, and runs of the merge.
use arkon.Base.{
  ◌≡◌, refl, none, some, [], ◌∷◌, ok, All, length, ◌*◌, List, strip, rstrip, lstrip, is_space,
}
use arkon.Samples.{first, first-WellFormed}
use arkon.Wiki.WellFormed.{WellFormed}
use arkon.Commit.{
  PageWriteResult, SourceRow, Tables, Counts, Services, find_source, resolve_wiki_scopes,
  run_commit_phase,
}
use arkon.Commit.Merger.{bit_length, rounded, min_acceptable, merge_page_content}
use arkon.Commit.Committed.{total}
use arkon.Commit.Scopes.{AllCited, run_commit_phase-commits}

-- as Python has it: 90 * 0.7 is below 63
min_acceptable_runs :
    (min_acceptable 10 ≡ 7)
    × (min_acceptable 90 ≡ 62)
    × (min_acceptable 130 ≡ 91)
    × (min_acceptable 180 ≡ 125)
unfolding min_acceptable bit_length rounded
min_acceptable_runs = (refl, refl, refl, refl)

short_page : merge_page_content (λ old new. some "merged") "old" "new" ≡ "new"
unfolding merge_page_content strip rstrip lstrip is_space
short_page = refl

abbrev source : SourceRow
source = record {
  id = 9;
  title = "Handbook";
  file_name = "";
  scope_type = "global";
  scope_id = none;
  pipeline_phase = "refine";
  status = "processing";
  progress = 90;
  progress_message = "";
  error_message = none;
  auto_recover_count = 1;
}

abbrev update_home : PageWriteResult
update_home = record {
  slug = "home";
  title = "Home";
  page_type = "topic";
  action = "UPDATE";
  content_md = "the handbook on home";
  summary = "";
}

abbrev pages_written : List PageWriteResult
pages_written = update_home ∷ record update_home { slug = "about"; action = "CREATE" } ∷ []

abbrev tables : Tables
tables = record {
  wiki = first;
  sources = source ∷ [];
  source_departments = (9, 2) ∷ (9, 3) ∷ [];
  plan_status = some "approved";
}

abbrev services : Services
services = record {
  merge_llm = some (λ old new. some "merged");
  kt_slug = none;
  ordered = λ rows. rows;
  timestamp = "2026-01-01 00:00";
  id_text = λ id. "9";
}

two_scopes :
    resolve_wiki_scopes (find_source 9 tables.sources) tables.source_departments
    ≡ ("department", some 2) ∷ ("department", some 3) ∷ []
unfolding resolve_wiki_scopes
two_scopes = refl

run_commit_phase-commits_example :
    (c : Counts) × (t' : Tables) × (run_commit_phase services source pages_written tables
      ≡ ok (c, t'))
    × WellFormed t'.wiki
    × All
        (λ scope. AllCited services 9 source pages_written t'.wiki scope)
        (resolve_wiki_scopes (find_source 9 tables.sources) tables.source_departments)
    × (total c
        ≡ length (resolve_wiki_scopes (find_source 9 tables.sources) tables.source_departments) * 2)
run_commit_phase-commits_example =
    run_commit_phase-commits services source pages_written tables first-WellFormed refl
