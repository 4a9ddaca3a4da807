-- ===== src/Wiki/Examples.antt =====
-- The wiki's theorems at a small wiki, and runs of its operations.
use arkon.Base.{
  ◌≡◌, refl, false, none, some, [], ◌∷◌, ok, err, any, elem, strip, lstrip, rstrip, is_space, ◌>>=◌,
}
use arkon.Samples.{
  draft, home, no_pages, no_pages-WellFormed, home_page, first, first-WellFormed, home_stored,
}
use arkon.Wiki.{
  WikiPage, WikiPageRevision, WikiDb, integrity_error, draft_conflict, get_page, get_page_by_slug,
  scope_filter, set_page,
}
use arkon.Wiki.Links.{
  slug_run, after_run, label_length, tail_length, match_inner, match_at, find_groups, collect,
  extract_wikilinks, refresh_links,
}
use arkon.Wiki.Pages.{
  revision_of, upsert_page, upsert_found, direct_edit_page, find_revision, rollback_to_revision,
  detach_source_from_wiki,
}
use arkon.Wiki.Approval.{
  Decision, Proposal, create_draft, reject_draft, approve_draft, new_page, reviewed,
}
use arkon.Contribution.Artifacts.{WikiPageDraft, approved, rejected}
use arkon.Wiki.Links.{link_of, refresh_links}
use arkon.Wiki.Detach.{detach_source_from_wiki_lem}
use arkon.Wiki.WellFormed.{WellFormed, written, apply_create-ok, write_page-ok}
use arkon.Wiki.WellFormed.Outcomes.{rolled_back}
use arkon.Wiki.WellFormed.Drafts.{
  approve_after, approve_draft-create, approve_draft-edit, approve_draft-conflict, approved_page,
  approved_db,
}
use arkon.Wiki.WellFormed.History.{
  Write, upsert, edit, done, more, Writes-WellFormed, rollback_to_revision-Writes,
}
use arkon.Wiki.WellFormed.Upsert.{IsWritten, upsert_page_lem}

wikilinks :
    extract_wikilinks "see [[a/b|Text]] and [[c]] [[c]] [[ d ]] [[x|y] [[[e]] [[]] [[_index]]"
    ≡ "a/b" ∷ "c" ∷ "d" ∷ "[e" ∷ "_index" ∷ []
unfolding extract_wikilinks collect find_groups match_at match_inner tail_length label_length
    after_run slug_run strip lstrip rstrip is_space
wikilinks = refl

first-Write : Write no_pages first
unfolding upsert_page upsert_found get_page_by_slug
first-Write = upsert home home_page (apply_create-ok home no_pages no_pages-WellFormed)

abbrev second : WikiDb
second = written home_page "new text" "editor_edit" none (some 3) none first

abbrev home_page_2 : WikiPage
home_page_2 = record home_page { content_md = "new text"; version = 2 }

second-Write : Write first second
unfolding direct_edit_page
second-Write = edit home_page home_page_2 3 "new text" none home_stored (
    write_page-ok home_page "new text" "editor_edit" none (some 3) none first first-WellFormed
      home_page refl home_stored)

Writes-WellFormed_example : WellFormed second
Writes-WellFormed_example =
    Writes-WellFormed no_pages second no_pages-WellFormed
      (more (more done first-Write) second-Write)

abbrev first_revision : WikiPageRevision
first_revision = revision_of home_page "agent_compile" none none none

first_revision_found : find_revision 0 1 first.revisions ≡ some first_revision
unfolding find_revision
first_revision_found = refl

home_stored_2 : get_page 0 second.pages ≡ some home_page_2
unfolding get_page refresh_links set_page
home_stored_2 = refl

rollback_to_revision-Writes_example :
    rollback_to_revision home_page_2 1 (λ n. "1") 4 second
    ≡ ok (
      record home_page_2 { content_md = "see [[about]]"; version = 3 },
      rolled_back home_page_2 1 (λ n. "1") 4 first_revision second,
    )
rollback_to_revision-Writes_example =
    rollback_to_revision-Writes first second first-WellFormed (more done second-Write) home_page_2 1
      (λ n. "1") 4 first_revision first_revision_found home_stored_2

upsert_page_lem_example :
    (page : WikiPage) × (db' : WikiDb) × (upsert_page home first ≡ ok (page, db'))
    × (get_page_by_slug "home" "global" none db'.pages ≡ some page)
    × (page.content_md ≡ "see [[about]]")
    × IsWritten (get_page_by_slug "home" "global" none first.pages) first.next_id page
upsert_page_lem_example = upsert_page_lem home first first-WellFormed

detach_source_from_wiki_lem_example :
    any (λ q. elem 7 q.source_ids) (detach_source_from_wiki 7 first).1.pages ≡ false
detach_source_from_wiki_lem_example =
    detach_source_from_wiki_lem 7 first first-WellFormed.unique_ids

abbrev proposed : Proposal
proposed = record {
  page_id = some 0;
  author_id = 5;
  content_md = "proposed text";
  note = none;
  base_version = some 1;
  draft_kind = "edit";
  suggested_metadata = none;
}

created_draft : create_draft 20 proposed ≡ draft
unfolding create_draft
created_draft = refl

abbrev decision : Decision
decision = record {
  reviewer_id = 3;
  reviewer_note = none;
  edited_content_md = none;
  allow_conflict = false;
  overrides = none;
  now = 100;
}

rejected_draft : (reject_draft 3 "no" 9 draft).status ≡ rejected
unfolding reject_draft
rejected_draft = refl

approve_draft-edit_example :
    approve_draft draft decision first
    ≡ ok (
      approved_page draft decision home_page first first-WellFormed refl refl home_stored,
      (
        reviewed approved 3 none 100 draft,
        approved_db draft decision home_page first first-WellFormed refl refl home_stored,
      ),
    )
approve_draft-edit_example =
    approve_draft-edit draft decision home_page first first-WellFormed refl refl home_stored refl

abbrev second_draft : WikiPageDraft
second_draft = record draft { id = 21; content_md = "another text" }

approve_draft-conflict_example :
    (approve_draft draft decision first >>= approve_after second_draft decision)
    ≡ err (draft_conflict 2 1)
approve_draft-conflict_example =
    approve_draft-conflict draft decision home_page first first-WellFormed refl refl home_stored
      refl second_draft decision refl refl refl refl refl

abbrev new_draft : WikiPageDraft
new_draft = record draft {
  page_id = none;
  draft_kind = "create";
  base_version = none;
  suggested_metadata = some (record {
    slug = some "about";
    title = some "About";
    page_type = none;
    knowledge_type_slugs = none;
    scope_type = none;
    scope_id = none;
  });
}

approve_draft-create_example : approve_draft new_draft decision first ≡ err integrity_error
unfolding new_page strip lstrip rstrip is_space get_page_by_slug scope_filter refresh_links
approve_draft-create_example =
    approve_draft-create new_draft decision first first-WellFormed refl refl refl refl

abbrev graph : WikiDb
graph = record no_pages { links = link_of 0 "old" ∷ link_of 1 "home" ∷ [] }
