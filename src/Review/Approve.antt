-- ===== src/Review/Approve.antt =====
-- The endpoint `approve_draft` of app/routers/wiki_drafts.py. An error is the HTTP status; the one of an
-- exception that the endpoint does not catch is 500.
use Prim.Native.String.{◌++◌ as str_append}
use arkon.Base.{
  ℕ, String, Bool, false, not, ◌||◌, Option, none, some, List, ◌==◌, str_eq, if◌then◌else◌, Result,
  ok, err, ◌>>=◌, ◌>>◌, guard,
}
use arkon.Access.{Employee, is_admin}
use arkon.Contribution.Artifacts.{pending, same_status, WikiPageDraft}
use arkon.Contribution.Effects.{Env, Session, log_audit, decimal}
use arkon.Contribution.{name_of}
use arkon.Contribution.Approved.{notify_approved}
use arkon.Wiki.{
  WikiPage, WikiDb, WikiError, integrity_error, draft_conflict, slug_conflict, value_error,
}
use arkon.Wiki.Approval.{Decision, Overrides, approve_draft}
use arkon.Wiki.Logbook.{regenerate_index, append_log}
use arkon.Review.{World, can_review_draft, load_draft, with_page, put_draft, commit}

-- ApproveDraftRequest
pub record ApproveDraftRequest : Type 0 where
  pub reviewer_note : Option String
  pub edited_content_md : Option String
  pub allow_conflict : Bool
  pub overrides : Overrides

-- What the endpoint finds outside: the surroundings of the service, the database's ORDER BY, and the
-- time as `append_log` writes it.
pub record Outside : Type 0 where
  pub env : Env
  pub ordered : List WikiPage → List WikiPage
  pub ts : String

-- `draft.author_id == user.id`
abbrev pub is_own : Option ℕ → Employee → Bool
is_own none user = false
is_own (some a) user = a == user.id

-- the arguments of the service's `approve_draft`
unfoldable pub decision_of : Outside → Employee → ApproveDraftRequest → WikiPageDraft → Decision
decision_of o user body draft = record {
  reviewer_id = user.id;
  reviewer_note = body.reviewer_note;
  edited_content_md = body.edited_content_md;
  allow_conflict = body.allow_conflict;
  overrides = if str_eq draft.draft_kind "create" then some body.overrides else none;
  now = o.env.now;
}

unfoldable pub status_of : WikiError → ℕ
status_of (draft_conflict _ _) = 409
status_of (slug_conflict _ _ _) = 409
status_of (value_error _) = 400
status_of integrity_error = 500

abbrev pub action_label : WikiPageDraft → String
action_label draft = if str_eq draft.draft_kind "create" then "created" else "approved"

abbrev pub log_label : WikiPageDraft → String
log_label draft = if str_eq draft.draft_kind "create" then "Created" else "Approved"

unfoldable pub log_entry : WikiPageDraft → WikiPage → Employee → String
log_entry draft page user = str_append (log_label draft) (
    str_append " page: " (
      str_append page.title (
        str_append " (" (
          str_append page.slug (
            str_append ") → v"
              (str_append (decimal page.version) (str_append " by " (name_of user))))))))

-- `page.scope_type or "global"`
abbrev pub scope_type_of : WikiPage → String
scope_type_of page = if str_eq page.scope_type "" then "global" else page.scope_type

-- the wiki after the index and the log are renewed
unfoldable pub wiki_after : Outside → WikiPageDraft → WikiPage → Employee → WikiDb → WikiDb
wiki_after o draft page user db =
    (append_log o.ts (log_entry draft page user) (scope_type_of page) page.scope_id
      (regenerate_index o.ordered (scope_type_of page) page.scope_id db).1).1

-- the audit log, and the notifications
unfoldable pub session_after :
    Outside → Employee → World → WikiPage → WikiPageDraft → WikiPageDraft → Session
session_after o user w page draft draft' =
    notify_approved o.env.id_text user (str_append "v" (decimal page.version))
      (put_draft draft' w.drafts) draft'
      (log_audit user "update" "wiki_draft" draft.id
        (some (str_append (action_label draft) (str_append " draft for: " page.slug))) w.session)

-- what follows the approval
unfoldable pub finish : Outside → Employee → World → WikiPage → WikiPageDraft → WikiDb → World
finish o user w page draft db =
    let draft' = with_page (some page) draft in
    commit (record w { wiki = wiki_after o draft page user db })
      (draft', session_after o user w page draft draft')

unfoldable pub approved_world :
    Outside
    → Employee
    → World
    → Result WikiError (WikiPage × (WikiPageDraft × WikiDb))
    → Result ℕ World
approved_world o user w (ok (page, (draft, db))) = ok (finish o user w page draft db)
approved_world o user w (err e) = err (status_of e)

unfoldable pub approve_draft_endpoint :
    Outside → Employee → ApproveDraftRequest → ℕ → World → Result ℕ World
approve_draft_endpoint o user body id w = do
  draft ← load_draft id w
  guard (same_status draft.status pending) 400
  guard (can_review_draft w user draft) 403
  guard (is_admin user || not (is_own draft.author_id user)) 403
  approved_world o user w (approve_draft draft (decision_of o user body draft) w.wiki)
