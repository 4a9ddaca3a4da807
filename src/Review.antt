-- ===== src/Review.antt =====
-- The endpoints of app/routers/wiki_drafts.py that move a draft between its states, but for the
-- approvals. An error is the HTTP status; nothing is committed then.
mod Stored
pub mod Authority
pub mod Approve
pub mod Approval
pub mod Bulk
pub mod Proposals
mod Examples
use Prim.Native.String.{count, ◌++◌ as str_append}
use arkon.Base.{
  ℕ, String, Bool, true, false, not, ◌&&◌, ◌||◌, Option, none, some, List, [], ◌∷◌, find, leb, ◌==◌,
  str_eq, if◌then◌else◌, Result, ok, err, ◌>>=◌, ◌>>◌, guard, strip, is_blank, text_or_empty,
}
use arkon.Access.{Employee, is_admin}
use arkon.Reviewers.{Scope, Directory, can_review_scope}
use arkon.Contribution.Artifacts.{
  Status, pending, same_status, PageRef, Metadata, WikiPageDraft, wiki_draft_adapter,
}
use arkon.Contribution.Effects.{Env, Session, log_audit}
use arkon.Contribution.{
  InvalidTransition, request_changes, withdraw, resubmit_wiki_draft, notify_rejected,
}
use arkon.Wiki.{WikiPage, WikiDb}
use arkon.Wiki.Approval.{page_of, reject_draft, or_default, no_metadata, first_text}

-- What the endpoints read and write.
pub record World : Type 0 where
  pub directory : Directory
  pub wiki : WikiDb
  pub drafts : List WikiPageDraft
  pub session : Session

abbrev pub scope_of : WikiPage → Scope
scope_of p = record { scope_type = p.scope_type; scope_id = p.scope_id }

-- the scope that a create draft asks for
unfoldable pub asked_scope : Option Metadata → Scope
asked_scope meta = record {
  scope_type = first_text (or_default meta no_metadata).scope_type none "global";
  scope_id = (or_default meta no_metadata).scope_id;
}

-- `_can_review_draft` of an edit draft, by the page that is found
unfoldable pub can_review_page : Directory → Employee → Option WikiPage → Bool
can_review_page d user none = is_admin user
can_review_page d user (some page) = can_review_scope d user (scope_of page)

unfoldable pub can_review_draft : World → Employee → WikiPageDraft → Bool
can_review_draft w user draft =
    if str_eq draft.draft_kind "create"
    then can_review_scope w.directory user (asked_scope draft.suggested_metadata)
    else can_review_page w.directory user (page_of draft.page_id w.wiki)

-- `_load_draft`
unfoldable pub load_draft : ℕ → World → Result ℕ WikiPageDraft
load_draft id w = elim (find (λ x. x.id == id) w.drafts) [ none ↦ err 404 | some draft ↦ ok draft ]

-- `draft.page = page`, if the page is found
unfoldable pub with_page : Option WikiPage → WikiPageDraft → WikiPageDraft
with_page none draft = draft
with_page (some p) draft = record draft {
  page = some (record { title = p.title; slug = p.slug; scope = scope_of p });
}

unfoldable pub put_draft : WikiPageDraft → List WikiPageDraft → List WikiPageDraft
put_draft x [] = []
put_draft x (y ∷ ys) = let rest = put_draft x ys in if y.id == x.id then x ∷ ys else y ∷ rest

unfoldable pub commit : World → WikiPageDraft × Session → World
commit w (draft, s) = record w { drafts = put_draft draft w.drafts; session = s }

-- an operation of the service, with the status that the endpoint gives to `InvalidTransition`
unfoldable pub committed :
    ℕ → World → Result InvalidTransition (WikiPageDraft × Session) → Result ℕ World
committed status w (ok done) = ok (commit w done)
committed status w (err e) = err status

-- the validator `not_empty` of a note
abbrev pub is_note : String → Bool
is_note s = not (is_blank (strip s))

-- the validator `not_empty` of a content
abbrev pub is_content : String → Bool
is_content s = not (is_blank (strip s)) && leb (count s) 50000

unfoldable pub request_changes_on_draft : Env → Employee → String → ℕ → World → Result ℕ World
request_changes_on_draft env user reviewer_note id w = do
  guard (is_note reviewer_note) 422
  draft ← load_draft id w
  guard (can_review_draft w user draft) 403
  committed 400 w (
      request_changes (wiki_draft_adapter env.id_text) user (some reviewer_note)
        (with_page (page_of draft.page_id w.wiki) draft) w.session)

unfoldable pub resubmit_draft : Env → Employee → String → Option String → ℕ → World → Result ℕ World
resubmit_draft env user content_md comment id w = do
  guard (is_content content_md) 422
  draft ← load_draft id w
  committed 400 w (
      resubmit_wiki_draft env w.directory user (strip content_md) comment
        (with_page (page_of draft.page_id w.wiki) draft) w.session)

unfoldable pub withdraw_draft : Env → Employee → ℕ → World → Result ℕ World
withdraw_draft env user id w = do
  draft ← load_draft id w
  committed 403 w (
      withdraw (wiki_draft_adapter env.id_text) w.directory user
        (with_page (page_of draft.page_id w.wiki) draft) w.session)

-- `slug_label`
unfoldable pub slug_label : WikiPageDraft → Option WikiPage → String
slug_label draft (some page) = page.slug
slug_label draft none = elim draft.page_id [
  | some _ ↦ "(unknown)"
  | none ↦ elim (or_default draft.suggested_metadata no_metadata).slug [
    | none ↦ "(new page)"
    | some slug ↦ slug
  ]
]

unfoldable pub reject_draft_endpoint : Env → Employee → String → ℕ → World → Result ℕ World
reject_draft_endpoint env user reviewer_note id w = do
  guard (is_note reviewer_note) 422
  draft ← load_draft id w
  guard (same_status draft.status pending) 400
  guard (can_review_draft w user draft) 403
  let page = page_of draft.page_id w.wiki
  let draft' = reject_draft user.id reviewer_note env.now (with_page page draft)
  let s =
      log_audit user "update" "wiki_draft" draft.id
        (some (str_append "rejected draft for: " (slug_label draft page))) w.session
  ok (
      commit w (
        draft',
        notify_rejected (wiki_draft_adapter env.id_text) user (some reviewer_note) draft' s,
      ))

-- What somebody asks of a draft.
pub data Action : Type 0 where
  ask_changes : String → Action
  resubmit : String → Option String → Action
  take_back : Action
  reject : String → Action

unfoldable pub perform : Env → Employee → Action → ℕ → World → Result ℕ World
perform env user (ask_changes note) id w = request_changes_on_draft env user note id w
perform env user (resubmit content comment) id w = resubmit_draft env user content comment id w
perform env user take_back id w = withdraw_draft env user id w
perform env user (reject note) id w = reject_draft_endpoint env user note id w
