-- ===== src/Wiki/WellFormed/History.antt =====
-- Histories of the wiki's writes (app/services/wiki_service.py): the invariant, and the way back to
-- an earlier revision.
use Prim.Native.String.{◌++◌ as str_append}
use arkon.Base.{ℕ, ◌+◌, ◌≡◌, refl, String, Option, none, some, ok, Option-cases, inl, inr}
use arkon.Wiki.{WikiPage, WikiPageRevision, WikiDb, get_page, or_one}
use arkon.Wiki.Pages.{
  NewPage, upsert_page, direct_edit_page, find_revision, restore, rollback_to_revision,
}
use arkon.Wiki.Approval.{Decision, approve_draft}
use arkon.Contribution.Artifacts.{WikiPageDraft}
use arkon.Wiki.WellFormed.{WellFormed}
use arkon.Wiki.WellFormed.Outcomes.{
  Outcome, Outcome-WellFormed, Outcome-keeps, write_lem, upsert_lem, approve_lem, rollback_lem,
  rolled_back,
}

-- The writes of the wiki, by the operation and its outcome.
pub data Write : WikiDb → WikiDb → Type 0 where
  upsert :
      {db db' : WikiDb} (n : NewPage) (page : WikiPage)
      → upsert_page n db ≡ ok (page, db')
      → Write db db'
  edit :
      {db db' : WikiDb} (page page' : WikiPage) (editor_id : ℕ) (content : String)
      (change_note : Option String)
      → get_page page.id db.pages ≡ some page
      → direct_edit_page page editor_id content change_note db ≡ ok (page', db')
      → Write db db'
  roll_back :
      {db db' : WikiDb} (page page' : WikiPage) (target : ℕ) (decimal : ℕ → String) (actor_id : ℕ)
      → get_page page.id db.pages ≡ some page
      → rollback_to_revision page target decimal actor_id db ≡ ok (page', db')
      → Write db db'
  approve :
      {db db' : WikiDb} (draft draft' : WikiPageDraft) (decision : Decision) (page : WikiPage)
      → approve_draft draft decision db ≡ ok (page, (draft', db'))
      → Write db db'

rolled_lem :
    (page page' : WikiPage) (target : ℕ) (decimal : ℕ → String) (actor_id : ℕ) (db db' : WikiDb)
    → WellFormed db
    → get_page page.id db.pages ≡ some page
    → rollback_to_revision page target decimal actor_id db ≡ ok (page', db')
    → Outcome db db'
unfolding rollback_to_revision restore
rolled_lem page page' target decimal actor_id db db' w h e =
    elim (Option-cases (find_revision page.id target db.revisions)) [
      | inl a ↦ absurd (cc (rw a at e))
      | inr (r, a) ↦
          write_lem page page r.content_md "rollback" none (some actor_id)
            (some (str_append "rollback to v" (decimal target))) db db' page' w refl h (rw a at e)
    ]

outcome : (db db' : WikiDb) → WellFormed db → Write db db' → Outcome db db'
unfolding direct_edit_page
outcome db db' w (upsert n page e) = upsert_lem n db db' page w e
outcome db db' w (edit page page' editor_id content change_note h e) =
    write_lem page page content "editor_edit" none (some editor_id) change_note db db' page' w refl
      h e
outcome db db' w (roll_back page page' target decimal actor_id h e) =
    rolled_lem page page' target decimal actor_id db db' w h e
outcome db db' w (approve draft draft' decision page e) =
    approve_lem draft draft' decision page db db' w e

-- Any number of writes.
pub data Writes (db : WikiDb) : WikiDb → Type 0 where
  done : Writes db db
  more : {mid last : WikiDb} → Writes db mid → Write mid last → Writes db last

-- Every history of writes (compilations, edits, roll-backs, approvals) that begins with a well-formed
-- wiki leaves it well-formed.
pub Writes-WellFormed : (db db' : WikiDb) → WellFormed db → Writes db db' → WellFormed db'
Writes-WellFormed db _ w done = w
Writes-WellFormed db db' w (more {mid} ws step) =
    let w' = Writes-WellFormed db mid w ws in
    Outcome-WellFormed mid db' w' (outcome mid db' w' step)

-- No history of writes changes or loses a revision: what a page and a version find is found after it.
pub find_revision-Writes :
    (db db' : WikiDb)
    → WellFormed db
    → Writes db db'
    → (id v : ℕ) → (r : WikiPageRevision) → find_revision id v db.revisions ≡ some r
    → find_revision id v db'.revisions ≡ some r
find_revision-Writes db _ w done id v r f = f
find_revision-Writes db db' w (more {mid} ws step) id v r f =
    let w' = Writes-WellFormed db mid w ws in
    Outcome-keeps mid db' id v r (outcome mid db' w' step)
      (find_revision-Writes db mid w ws id v r f)

-- After any history of writes to a well-formed wiki, a page that is stored can be rolled back to
-- every revision it had before that history: the roll-back goes through, with that revision's content
-- and the next version, and adds its own revision.
pub rollback_to_revision-Writes :
    (db db' : WikiDb)
    → WellFormed db
    → Writes db db'
    → (page : WikiPage) → (target : ℕ) → (decimal : ℕ → String) → (actor_id : ℕ)
    → (r : WikiPageRevision) → find_revision page.id target db.revisions ≡ some r
    → get_page page.id db'.pages ≡ some page
    → rollback_to_revision page target decimal actor_id db'
      ≡ ok (
        record page { content_md = r.content_md; version = or_one page.version + 1 },
        rolled_back page target decimal actor_id r db',
      )
rollback_to_revision-Writes db db' w ws page target decimal actor_id r f h =
    rollback_lem page target decimal actor_id db' r (Writes-WellFormed db db' w ws) h
      (find_revision-Writes db db' w ws page.id target r f)
