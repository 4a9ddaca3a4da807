-- ===== src/Review/Bulk.antt =====
-- Many approvals in one request: `bulk_approve_drafts` of app/routers/wiki_drafts.py, without the
-- messages of the single results. An approval that raises is rolled back to its savepoint.
pub mod Moves
use Prim.Native.String.{◌++◌ as str_append}
use arkon.Base.{
  ℕ, ◌+◌, String, Bool, not, ◌||◌, Option, none, some, List, [], ◌∷◌, ◌++◌, find, ◌==◌, Result, ok,
  err, if◌then◌else◌,
}
use arkon.Access.{Employee, is_admin}
use arkon.Contribution.Artifacts.{pending, same_status, WikiPageDraft}
use arkon.Contribution.Effects.{Session, log_audit, decimal}
use arkon.Contribution.{name_of}
use arkon.Contribution.Approved.{notify_approved}
use arkon.Wiki.{WikiPage, WikiDb, WikiError}
use arkon.Wiki.Approval.{Decision, approve_draft}
use arkon.Wiki.Logbook.{regenerate_index, append_log}
use arkon.Review.{World, can_review_draft, with_page, put_draft, commit}
use arkon.Review.Approve.{Outside, is_own, scope_type_of}

pub record BulkApproveRequest : Type 0 where
  pub draft_ids : List ℕ
  pub allow_conflict : Bool
  pub reviewer_note : Option String

pub data ItemStatus : Type 0 where
  item_approved item_skipped item_error : ItemStatus

-- A result; an approval has the version of the page.
pub record BulkApproveItemResult : Type 0 where
  pub draft_id : ℕ
  pub status : ItemStatus
  pub page_version : Option ℕ

pub record BulkApproveResponse : Type 0 where
  pub results : List BulkApproveItemResult
  pub approved : ℕ
  pub skipped : ℕ
  pub errored : ℕ

module _ (o : Outside) (user : Employee) (body : BulkApproveRequest) where
  abbrev pub bulk_decision : Decision
  bulk_decision = record {
    reviewer_id = user.id;
    reviewer_note = body.reviewer_note;
    edited_content_md = none;
    allow_conflict = body.allow_conflict;
    overrides = none;
    now = o.env.now;
  }

  abbrev pub bulk_entry : WikiPage → String
  bulk_entry page = str_append "Bulk-approved draft for: " (
      str_append page.title (
        str_append " (" (
          str_append page.slug (
            str_append ") -> v"
              (str_append (decimal page.version) (str_append " by " (name_of user)))))))

  -- the wiki with its index and its log
  unfoldable pub bulk_wiki : WikiPage → WikiDb → WikiDb
  bulk_wiki page db =
      (append_log o.ts (bulk_entry page) (scope_type_of page) page.scope_id
        (regenerate_index o.ordered (scope_type_of page) page.scope_id db).1).1

  -- the audit log and the notifications
  unfoldable pub bulk_session : World → WikiPage → ℕ → WikiPageDraft → Session
  bulk_session w page draft_id draft =
      notify_approved o.env.id_text user (str_append "v" (decimal page.version))
        (put_draft draft w.drafts) draft
        (log_audit user "update" "wiki_draft" draft_id
          (some (str_append "bulk-approved: " page.slug)) w.session)

  -- the block under the savepoint
  unfoldable pub bulk_outcome :
      World
      → WikiPageDraft
      → Result WikiError (WikiPage × (WikiPageDraft × WikiDb))
      → (ItemStatus × Option ℕ) × World
  bulk_outcome w draft (err e) = ((item_error, none), w)
  bulk_outcome w draft (ok (page, (x, db))) =
      let x' = with_page (some page) x in
      (
        (item_approved, some page.version),
        commit (record w { wiki = bulk_wiki page db }) (x', bulk_session w page draft.id x'),
      )

  -- the body of the loop for a draft that is found
  unfoldable pub bulk_draft : WikiPageDraft → World → (ItemStatus × Option ℕ) × World
  bulk_draft draft w =
      if not (same_status draft.status pending)
      then ((item_skipped, none), w)
      else if not (can_review_draft w user draft)
      then ((item_skipped, none), w)
      else if not (is_admin user || not (is_own draft.author_id user))
      then ((item_skipped, none), w)
      else bulk_outcome w draft (approve_draft draft bulk_decision w.wiki)

  unfoldable pub bulk_item : ℕ → World → (ItemStatus × Option ℕ) × World
  bulk_item id w = elim (find (λ x. x.id == id) w.drafts) [
    | none ↦ ((item_error, none), w)
    | some draft ↦ bulk_draft draft w
  ]

  -- a result in front of those of the later ids, and counted
  unfoldable pub count_item : ℕ → ItemStatus × Option ℕ → BulkApproveResponse → BulkApproveResponse
  count_item id (item_approved, version) r = record r {
    results = record { draft_id = id; status = item_approved; page_version = version } ∷ r.results;
    approved = r.approved + 1;
  }
  count_item id (item_skipped, version) r = record r {
    results = record { draft_id = id; status = item_skipped; page_version = version } ∷ r.results;
    skipped = r.skipped + 1;
  }
  count_item id (item_error, version) r = record r {
    results = record { draft_id = id; status = item_error; page_version = version } ∷ r.results;
    errored = r.errored + 1;
  }

  unfoldable pub bulk_approve_loop : List ℕ → World → BulkApproveResponse × World
  bulk_approve_loop [] w = (record { results = []; approved = 0; skipped = 0; errored = 0 }, w)
  bulk_approve_loop (id ∷ ids) w =
      let (result, w') = bulk_item id w in
      let (rest, w'') = bulk_approve_loop ids w' in (count_item id result rest, w'')

  unfoldable pub bulk_approve_drafts : World → BulkApproveResponse × World
  bulk_approve_drafts w = bulk_approve_loop body.draft_ids w
