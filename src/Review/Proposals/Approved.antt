-- ===== src/Review/Proposals/Approved.antt =====
-- A proposal through app/routers/wiki_drafts.py and its approval.
use Prim.Native.String.{◌++◌ as str_append}
use arkon.Base.{
  ℕ, ◌≡◌, refl, ap, ◌∙◌, String, true, false, not, Option, none, some, List, [], ◌∷◌, ◌++◌, find,
  ◌==◌, ltb, str_eq, ok, Bool-cases, Option-cases, inl, inr, guard-ok, arith,
}
use arkon.Access.{Employee, is_admin}
use arkon.Reviewers.{can_propose, can_review_scope}
use arkon.Contribution.Artifacts.{pending, approved, same_status, WikiPageDraft}
use arkon.Contribution.Effects.{Env, Session, is_disabled, enqueue_ai_review, log_audit}
use arkon.Contribution.{notify_submitted_draft}
use arkon.Wiki.{WikiPage, WikiDb, is_reserved, get_page, get_page_by_slug}
use arkon.Wiki.Approval.{create_draft, is_outdated, reviewed, page_of}
use arkon.Wiki.WellFormed.{WellFormed, found-stored}
use arkon.Wiki.WellFormed.Drafts.{is_current, approved_page, approved_db, approve_draft-edit}
use arkon.Review.{World, can_review_draft, can_review_page, load_draft, with_page, scope_of}
use arkon.Review.Approve.{
  ApproveDraftRequest, Outside, decision_of, approved_world, finish, approve_draft_endpoint,
}
use arkon.Review.Proposals.{
  ProposeDraftRequest, is_proposal, proposed_page, submitted, edit_draft, propose_on, propose_draft,
  version_or,
}

-- The draft as it is stored after `notify_submitted`.
abbrev pub stored_draft : Env → WikiPageDraft → Session → WikiPageDraft
stored_draft env draft s = (enqueue_ai_review env draft s).0

-- What the queueing of the AI review leaves as it is.
pub record Queued (x x' : WikiPageDraft) : Type 0 where
  pub id : x'.id ≡ x.id
  pub status : x'.status ≡ x.status
  pub page_id : x'.page_id ≡ x.page_id
  pub draft_kind : x'.draft_kind ≡ x.draft_kind
  pub base_version : x'.base_version ≡ x.base_version
  pub content_md : x'.content_md ≡ x.content_md
  pub author_id : x'.author_id ≡ x.author_id
  pub suggested_metadata : x'.suggested_metadata ≡ x.suggested_metadata

checked-Queued :
    (x : WikiPageDraft) (status : String) (results : Option String)
    → Queued x (record x { ai_check_status = status; ai_check_results = results })
checked-Queued x status results = record {
  id = refl;
  status = refl;
  page_id = refl;
  draft_kind = refl;
  base_version = refl;
  content_md = refl;
  author_id = refl;
  suggested_metadata = refl;
}

pub enqueue-Queued :
    (env : Env) (draft : WikiPageDraft) (s : Session) → Queued draft (stored_draft env draft s)
unfolding enqueue_ai_review
enqueue-Queued env draft s = elim (Bool-cases (is_disabled env.ai_pre_review_enabled)) [
  | inl off ↦
      rw (stored_draft, enqueue_ai_review, off)
        (checked-Queued draft "skipped" draft.ai_check_results)
  | inr off ↦ elim (Bool-cases env.queue_up) [
    | inl up ↦ rw (stored_draft, enqueue_ai_review, off, up) (checked-Queued draft "queued" none)
    | inr up ↦ rw (stored_draft, enqueue_ai_review, off, up) (checked-Queued draft "skipped" none)
  ]
]

find-new :
    (x : WikiPageDraft) (xs : List WikiPageDraft)
    → find (λ z. z.id == x.id) xs ≡ none
    → find (λ z. z.id == x.id) (xs ++ x ∷ []) ≡ some x
find-new x xs h = find-append x.id x xs refl h
  where
    find-append :
        (id : ℕ) (x : WikiPageDraft) (xs : List WikiPageDraft)
        → x.id ≡ id
        → find (λ z. z.id == id) xs ≡ none
        → find (λ z. z.id == id) (xs ++ x ∷ []) ≡ some x
    find-append id x [] e h = ground arith
    find-append id x (z ∷ zs) e h = ground (arith, find-append id x zs e)

pub admin-reviews :
    (w : World) (user : Employee) (draft : WikiPageDraft)
    → is_admin user ≡ true
    → can_review_draft w user draft ≡ true
unfolding can_review_draft can_review_page can_review_scope
admin-reviews w user draft h = elim (Bool-cases (str_eq draft.draft_kind "create")) [
  | inl c ↦ rw (can_review_draft, c, h) refl
  | inr c ↦ elim (Option-cases (page_of draft.page_id w.wiki)) [
    | inl gone ↦ rw (can_review_draft, c, gone) h
    | inr (page, there) ↦ rw (can_review_draft, c, there, h) refl
  ]
]

module _ (o : Outside) (reviewer : Employee) (decision : ApproveDraftRequest) (id : ℕ) (w : World)
    (draft : WikiPageDraft) (page : WikiPage) (wf : WellFormed w.wiki)
    (admin : is_admin reviewer ≡ true) (there : load_draft id w ≡ ok draft)
    (status : draft.status ≡ pending) where
  -- An edit draft of the stored version of its page is approved by any admin.
  edit-approved :
      str_eq draft.draft_kind "create" ≡ false
      → draft.page_id ≡ some page.id
      → draft.base_version ≡ some page.version
      → get_page page.id w.wiki.pages ≡ some page
      → (w2 : World) × (approve_draft_endpoint o reviewer decision id w ≡ ok w2)
  unfolding approve_draft_endpoint approved_world
  edit-approved kind target base stored =
      let is_pending : same_status draft.status pending ≡ true = rw status refl in
      let can = admin-reviews w reviewer draft admin in
      let newer : is_outdated draft.base_version page.version ≡ false = rw base (ground arith) in
      let d = decision_of o reviewer decision draft in
      let current : is_current draft d page ≡ true = ground arith in
      let done = approve_draft-edit draft d page w.wiki wf kind target stored current in
      (
        finish o reviewer w (approved_page draft d page w.wiki wf kind target stored)
            (reviewed approved d.reviewer_id d.reviewer_note d.now draft)
            (approved_db draft d page w.wiki wf kind target stored),
        rw (approve_draft_endpoint, there, is_pending, can, admin, approved_world, done) refl,
      )

proposed-stored :
    (slug : String) (body : ProposeDraftRequest) (db : WikiDb) (page : WikiPage)
    → WellFormed db
    → proposed_page slug body db.pages ≡ some page
    → get_page page.id db.pages ≡ some page
unfolding proposed_page get_page_by_slug
proposed-stored slug body db page wf h = by_scope body.scope_type h
  where
    by_scope :
        (scope_type : Option String)
        → elim scope_type [
          | some t ↦ get_page_by_slug slug t body.scope_id db.pages
          | none ↦ find (λ p. str_eq p.slug slug) db.pages
        ]
          ≡ some page
        → get_page page.id db.pages ≡ some page
    by_scope none e = found-stored _ db page wf e
    by_scope (some t) e = found-stored _ db page wf e

-- the draft that a submission stores
pub submitted-loads :
    (env : Env) (user : Employee) (draft : WikiPageDraft) (reason : String) (w : World)
    → find (λ z. z.id == draft.id) w.drafts ≡ none
    → load_draft draft.id (submitted env user draft reason w)
      ≡ ok (
          stored_draft env draft
            (log_audit user "create" "wiki_draft" draft.id (some reason) w.session))
unfolding load_draft submitted notify_submitted_draft
submitted-loads env user draft reason w fresh =
    let s = log_audit user "create" "wiki_draft" draft.id (some reason) w.session in
    let same = (enqueue-Queued env draft s).id in
    let new : find (λ z. z.id == draft.id) (w.drafts ++ stored_draft env draft s ∷ [])
        ≡ some (stored_draft env draft s) =
      rw same at (find-new (stored_draft env draft s) w.drafts (rw same fresh)) in
    rw (load_draft, submitted, notify_submitted_draft, new) refl

propose_on-approve :
    (o : Outside) (user reviewer : Employee) (id : ℕ) (slug : String) (body : ProposeDraftRequest)
    (decision : ApproveDraftRequest) (found : Option WikiPage) (w w1 : World)
    → WellFormed w.wiki
    → find (λ z. z.id == id) w.drafts ≡ none
    → body.base_version ≡ none
    → is_admin reviewer ≡ true
    → proposed_page slug body w.wiki.pages ≡ found
    → propose_on o.env user id slug body found w ≡ ok w1
    → (w2 : World) × (approve_draft_endpoint o reviewer decision id w1 ≡ ok w2)
unfolding propose_on create_draft with_page submitted
propose_on-approve o user reviewer id slug body decision none w w1 wf fresh base admin e h =
    absurd (cc h)
propose_on-approve o user reviewer id slug body decision (some page) w w1 wf fresh base admin e h =
    let draft = edit_draft user id body page in
    let reason = str_append "draft for: " slug in
    let s = log_audit user "create" "wiki_draft" id (some reason) w.session in
    let (_, h1) = guard-ok (can_propose w.directory user (scope_of page)) 403 _ h in
    let (_, h2) =
      guard-ok (not (ltb page.version (version_or body.base_version page.version))) 400 _ h1 in
    let same : submitted o.env user draft reason w ≡ w1 = cc h2 in
    let queued = enqueue-Queued o.env draft s in
    let kind : str_eq (stored_draft o.env draft s).draft_kind "create" ≡ false =
      rw (queued.draft_kind) refl in
    let version : (stored_draft o.env draft s).base_version ≡ some page.version =
      queued.base_version ∙ ap (λ b. some (version_or b page.version)) base in
    rw (← same) (
      edit-approved o reviewer decision id (submitted o.env user draft reason w)
        (stored_draft o.env draft s) page wf admin (submitted-loads o.env user draft reason w fresh)
        queued.status kind queued.page_id version (proposed-stored slug body w.wiki page wf e))

-- Of a well-formed wiki, an edit that was proposed without a version to start from goes through the
-- review: whoever proposes it, the approval by any admin that comes next is answered with no error.
pub propose_draft-approve :
    (o : Outside) (user reviewer : Employee) (id : ℕ) (slug : String) (body : ProposeDraftRequest)
    (decision : ApproveDraftRequest) (w w1 : World)
    → WellFormed w.wiki
    → find (λ z. z.id == id) w.drafts ≡ none
    → body.base_version ≡ none
    → is_admin reviewer ≡ true
    → propose_draft o.env user id slug body w ≡ ok w1
    → (w2 : World) × (approve_draft_endpoint o reviewer decision id w1 ≡ ok w2)
unfolding propose_draft
propose_draft-approve o user reviewer id slug body decision w w1 wf fresh base admin h =
    let (_, h1) = guard-ok (is_proposal body.content_md) 422 _ h in
    let (_, h2) = guard-ok (not (is_reserved slug)) 400 _ h1 in
    propose_on-approve o user reviewer id slug body decision (proposed_page slug body w.wiki.pages)
      w w1 wf fresh base admin refl h2
