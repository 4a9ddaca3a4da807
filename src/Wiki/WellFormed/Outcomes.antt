-- ===== src/Wiki/WellFormed/Outcomes.antt =====
-- What a write of app/services/wiki_service.py that goes through does: it writes a page that is
-- stored, or makes a new one.
use Prim.Native.String.{◌++◌ as str_append}
use arkon.Base.{
  is_blank, ℕ, ◌+◌, ◌≡◌, refl, String, ◌||◌, Option, none, some, List, [], ◌∷◌, ◌++◌, arith, Result,
  ok, str_eq, Option-cases, Bool-cases, inl, inr, Result-cases,
}
use arkon.Wiki.{
  WikiPage, WikiPageRevision, WikiDb, WikiError, get_page, or_one, get_page_by_slug, is_reserved,
}
use arkon.Wiki.Rows.{get_page-found}
use arkon.Wiki.Pages.{
  NewPage, write_page, upsert_page, upsert_found, update_found, updated, head_option, find_revision,
  restore, rollback_to_revision,
}
use arkon.Wiki.Approval.{
  Decision, approve_draft, approve_page, approve_edit, approve_create, assert_free, page_of,
}
use arkon.Contribution.Artifacts.{WikiPageDraft}
use arkon.Wiki.WellFormed.{
  WellFormed, written, write_page-ok, apply_create-ok, written-WellFormed, created,
  created-WellFormed,
}
use arkon.Wiki.WellFormed.Drafts.{approve_create-again, is_current}
use arkon.Wiki.Approval.{final_content}

-- The revisions that are found stay.
find_revision-append :
    (id v : ℕ) (rs ss : List WikiPageRevision) (r : WikiPageRevision)
    → find_revision id v rs ≡ some r
    → find_revision id v (rs ++ ss) ≡ some r
unfolding find_revision
find_revision-append id v [] ss r h = absurd (cc h)
find_revision-append id v (x ∷ xs) ss r h = ground (arith, find_revision-append id v xs ss r)

abbrev pub rolled_back : WikiPage → ℕ → (ℕ → String) → ℕ → WikiPageRevision → WikiDb → WikiDb
rolled_back page target decimal actor_id r db =
    written page r.content_md "rollback" none (some actor_id)
      (some (str_append "rollback to v" (decimal target))) db

pub rollback_lem :
    (page : WikiPage) (target : ℕ) (decimal : ℕ → String) (actor_id : ℕ) (db : WikiDb)
    (r : WikiPageRevision)
    → WellFormed db
    → get_page page.id db.pages ≡ some page
    → find_revision page.id target db.revisions ≡ some r
    → rollback_to_revision page target decimal actor_id db
      ≡ ok (
        record page { content_md = r.content_md; version = or_one page.version + 1 },
        rolled_back page target decimal actor_id r db,
      )
unfolding rollback_to_revision restore
rollback_lem page target decimal actor_id db r w stored found = rw found (
    write_page-ok page r.content_md "rollback" none (some actor_id)
      (some (str_append "rollback to v" (decimal target))) db w page refl stored)

-- What each write is: a page written, or a new one.
pub data Outcome (db : WikiDb) : WikiDb → Type 0 where
  wrote :
      (page stored : WikiPage) (content change_type : String) (draft_id changed_by_id : Option ℕ)
      (comment : Option String)
      → stored.version ≡ page.version
      → get_page page.id db.pages ≡ some stored
      → Outcome db (written page content change_type draft_id changed_by_id comment db)
  made : (n : NewPage) → Outcome db (created n db)

pub Outcome-WellFormed : (db db' : WikiDb) → WellFormed db → Outcome db db' → WellFormed db'
Outcome-WellFormed db _ w
      (wrote page stored content change_type draft_id changed_by_id comment same h) =
    written-WellFormed page content change_type draft_id changed_by_id comment db w stored same h
Outcome-WellFormed db _ w (made n) = created-WellFormed n db w

pub Outcome-keeps :
    (db db' : WikiDb) (id v : ℕ) (r : WikiPageRevision)
    → Outcome db db'
    → find_revision id v db.revisions ≡ some r
    → find_revision id v db'.revisions ≡ some r
Outcome-keeps db _ id v r
      (wrote page stored content change_type draft_id changed_by_id comment same h) f =
    find_revision-append id v db.revisions _ r f
Outcome-keeps db _ id v r (made n) f = find_revision-append id v db.revisions _ r f

-- The outcome of a write that went through.
from_ok :
    (db db' d : WikiDb) (p q : WikiPage) (x : Result WikiError (WikiPage × WikiDb))
    → Outcome db d
    → x ≡ ok (p, d)
    → x ≡ ok (q, db')
    → Outcome db db'
from_ok db db' d p q x o e e' = let same : d ≡ db' = cc in rw (← same) o

pub write_lem :
    (page stored : WikiPage) (content change_type : String) (draft_id changed_by_id : Option ℕ)
    (comment : Option String) (db db' : WikiDb) (q : WikiPage)
    → WellFormed db
    → stored.version ≡ page.version
    → get_page page.id db.pages ≡ some stored
    → write_page page content change_type draft_id changed_by_id comment db ≡ ok (q, db')
    → Outcome db db'
write_lem page stored content change_type draft_id changed_by_id comment db db' q w same h e =
    from_ok db db' _ _ q _
      (wrote page stored content change_type draft_id changed_by_id comment same h)
      (write_page-ok page content change_type draft_id changed_by_id comment db w stored same h) e

pub upsert_lem :
    (n : NewPage) (db db' : WikiDb) (q : WikiPage)
    → WellFormed db
    → upsert_page n db ≡ ok (q, db')
    → Outcome db db'
unfolding upsert_page upsert_found update_found get_page_by_slug
upsert_lem n db db' q w e =
    elim (Option-cases (get_page_by_slug n.slug n.scope_type n.scope_id db.pages)) [
      | inl p ↦ from_ok db db' _ _ q _ (made n) (apply_create-ok n db w) (rw p at e)
      | inr (page, p) ↦
          write_lem
            (updated (some n.summary) (some n.title) (head_option n.knowledge_type_slugs)
              (head_option n.source_ids) page)
            page n.content_md "agent_compile" none none none db db' q w refl
            (get_page-found _ db.pages page w.unique_ids p) (rw p at e)
    ]

-- The approval of a draft of a new page never goes through.
create_lem :
    (draft_id : ℕ) (decision : Decision) (n : NewPage) (db : WikiDb) (q : WikiPage × WikiDb)
    → WellFormed db
    → ¬ (approve_create draft_id decision n db ≡ ok q)
unfolding approve_create assert_free
create_lem draft_id decision n db q w e =
    elim (Bool-cases (is_blank n.slug || is_reserved n.slug)) [
      | inl a ↦ absurd (cc (rw a at e))
      | inr a ↦ elim (Bool-cases (is_blank n.title)) [
        | inl b ↦ absurd (cc (rw (a, b) at e))
        | inr b ↦ elim (Option-cases (get_page_by_slug n.slug n.scope_type n.scope_id db.pages)) [
          | inl c ↦ absurd (cc (approve_create-again n draft_id decision db w c a b, e))
          | inr (page, c) ↦ absurd (cc (rw (a, b, c) at e))
        ]
      ]
    ]

page_of_lem :
    (id : Option ℕ) (db : WikiDb)
    → WellFormed db
    → (page : WikiPage) → page_of id db ≡ some page
    → get_page page.id db.pages ≡ some page
unfolding page_of get_page
page_of_lem none db w page h = absurd (cc h)
page_of_lem (some id) db w page h = get_page-found _ db.pages page w.unique_ids h

edit_lem :
    (draft : WikiPageDraft) (decision : Decision) (o : Option WikiPage) (db db' : WikiDb)
    (q : WikiPage)
    → WellFormed db
    → ((page : WikiPage) → o ≡ some page → get_page page.id db.pages ≡ some page)
    → approve_edit draft decision o db ≡ ok (q, db')
    → Outcome db db'
unfolding approve_edit
edit_lem draft decision none db db' q w h e = absurd (cc e)
edit_lem draft decision (some page) db db' q w h e =
    elim (Bool-cases (is_current draft decision page)) [
      | inl a ↦
          let done : write_page page (final_content decision.edited_content_md draft.content_md)
                "draft_approved" (some draft.id) (some decision.reviewer_id) decision.reviewer_note
                db
              ≡ ok (q, db') =
            ground arith in
          write_lem page page (final_content decision.edited_content_md draft.content_md)
            "draft_approved" (some draft.id) (some decision.reviewer_id) decision.reviewer_note db
            db' q w refl (h page refl) done
      | inr a ↦ absurd (ground arith)
    ]

approved_lem :
    (draft draft' : WikiPageDraft) (decision : Decision) (page : WikiPage) (db db' : WikiDb)
    → approve_draft draft decision db ≡ ok (page, (draft', db'))
    → approve_page draft decision db ≡ ok (page, db')
unfolding approve_draft
approved_lem draft draft' decision page db db' e =
    elim (Result-cases (approve_page draft decision db)) [
      | inl ((p, d), a) ↦ let same = rw a at e in rw a (cc same)
      | inr (x, a) ↦ absurd (cc (rw a at e))
    ]

pub approve_lem :
    (draft draft' : WikiPageDraft) (decision : Decision) (page : WikiPage) (db db' : WikiDb)
    → WellFormed db
    → approve_draft draft decision db ≡ ok (page, (draft', db'))
    → Outcome db db'
unfolding approve_page
approve_lem draft draft' decision page db db' w e =
    let e' = approved_lem draft draft' decision page db db' e in
    elim (Bool-cases (str_eq draft.draft_kind "create")) [
      | inl a ↦ absurd (create_lem draft.id decision _ db _ w (rw a at e'))
      | inr a ↦
          edit_lem draft decision (page_of draft.page_id db) db db' page w
            (page_of_lem draft.page_id db w) (rw a at e')
    ]
