-- ===== src/Contribution.antt =====
-- The life of a contribution: app/services/contribution_service.py. An operation returns the new
-- artifact and session, or raises `InvalidTransition`.
pub mod Artifacts
pub mod Effects
pub mod Transitions
pub mod Trail
pub mod Approved
mod Examples
use Prim.Native.String.{◌++◌ as str_append}
use arkon.Base.{
  ℕ, ◌+◌, String, Bool, true, false, not, ◌&&◌, ◌||◌, Option, none, some, List, [], ◌∷◌, ◌++◌, any,
  elem, ◌==◌, str_eq, if◌then◌else◌, Result, ok, err, ◌>>=◌, ◌>>◌, guard, strip, is_blank,
  text_or_empty,
}
use arkon.Access.{Employee, is_admin}
use arkon.Reviewers.{Directory}
use arkon.Notify.{Payload, Item}
use Artifacts.{
  Status, pending, needs_revision, withdrawn, same_status, WikiPageDraft, SkillContribution,
  Adapter, wiki_draft_adapter, skill_contribution_adapter,
}
use Effects.{
  Env, Session, WikiDraftRound, enqueue_ai_review, log_audit, tell, tell_many, tell_each, decimal,
}

-- `InvalidTransition`, by the place that raises it
pub data InvalidTransition : Type 0 where
  note_required bad_status not_author : InvalidTransition

-- `reviewer.name or reviewer.email`
abbrev pub name_of : Employee → String
name_of user = if str_eq user.name "" then user.email else user.name

-- `adapter.author_id(obj) is not None and adapter.author_id(obj) != author.id`
abbrev pub is_stranger : Option ℕ → Employee → Bool
is_stranger none author = false
is_stranger (some a) author = not (a == author.id)

module _ {A : Type 0} (adapter : Adapter A) where
  -- `_assert_status`
  unfoldable pub assert_status : A → List Status → Result InvalidTransition (Unit {0})
  assert_status obj allowed = guard (any (same_status (adapter.status obj)) allowed) bad_status

  abbrev pub payload : String → String → String → A → Employee → Payload
  payload type subject body obj actor = record {
    type = type;
    subject = str_append subject (adapter.display_name obj);
    body = body;
    target_type = adapter.artifact_type;
    target_id = adapter.id obj;
    actor_id = some actor.id;
  }

  -- `if author_id: await notify(...)`
  unfoldable pub tell_author : Payload → Option ℕ → Session → Session
  tell_author p none s = s
  tell_author p (some author_id) s = tell p author_id s

  unfoldable pub request_changes :
      Employee → Option String → A → Session → Result InvalidTransition (A × Session)
  request_changes reviewer note obj s = do
    guard (not (is_blank (strip (text_or_empty note)))) note_required
    assert_status obj (pending ∷ [])
    let text = strip (text_or_empty note)
    let obj' = adapter.set_returned_note (adapter.set_status obj needs_revision) (some text)
    let s' =
        log_audit reviewer "request_changes" adapter.artifact_type (adapter.id obj') (some text) s
    ok (
      obj',
      tell_author
          (payload adapter.changes_requested_type "Changes requested on " text obj' reviewer)
          (adapter.author_id obj') s',
    )

  unfoldable pub withdraw :
      Directory → Employee → A → Session → Result InvalidTransition (A × Session)
  withdraw d author obj s = do
    assert_status obj (pending ∷ needs_revision ∷ [])
    guard (not (is_stranger (adapter.author_id obj) author && not (is_admin author))) not_author
    let obj' = adapter.set_status obj withdrawn
    let s' = log_audit author "withdraw" adapter.artifact_type (adapter.id obj') none s
    ok (
      obj',
      tell_many (payload adapter.withdrawn_type "Withdrawn: " "" obj' author)
          (adapter.reviewers d obj') s',
    )

  unfoldable pub notify_rejected : Employee → Option String → A → Session → Session
  notify_rejected reviewer reason obj s =
      tell_author
        (payload adapter.rejected_type "Your contribution was rejected: " (text_or_empty reason) obj
          reviewer)
        (adapter.author_id obj) s

  -- the first half of `notify_submitted`, for an artifact with no AI review
  unfoldable pub tell_submitted : Directory → Employee → A → Session → Session
  tell_submitted d actor obj s =
      tell_many
        (payload adapter.submitted_type "New draft: " (str_append "Submitted by " (name_of actor))
          obj actor)
        (adapter.reviewers d obj) s

-- `notify_submitted` of a wiki draft
unfoldable pub notify_submitted_draft :
    Env → Directory → Employee → WikiPageDraft → Session → WikiPageDraft × Session
notify_submitted_draft env d actor draft s =
    let (draft', s') = enqueue_ai_review env draft s in
    (draft', tell_submitted (wiki_draft_adapter env.id_text) d actor draft' s')

-- `author_note` replaces the note if it is given
abbrev pub or_keep : Option String → Option String → Option String
or_keep none old = old
or_keep (some new) old = some new

-- what a resubmission writes to the draft, before the AI review is queued
unfoldable pub resubmitted : String → Option String → WikiPageDraft → WikiPageDraft
resubmitted new_content author_note draft = record draft {
  content_md = new_content;
  note = or_keep author_note draft.note;
  last_returned_note = none;
  ai_check_status = "pending";
  ai_check_results = none;
  ai_checked_at = none;
  revision_round = draft.revision_round + 1;
  status = pending;
}

-- the snapshot of the round that a resubmission replaces
unfoldable pub snapshot : Env → WikiPageDraft → WikiDraftRound
snapshot env draft = record {
  draft_id = draft.id;
  round_no = draft.revision_round;
  content_md = draft.content_md;
  author_note = draft.note;
  reviewer_return_note = draft.last_returned_note;
  ai_check_results = draft.ai_check_results;
  submitted_at = env.now;
}

-- " (round n)"
abbrev pub round_suffix : ℕ → String
round_suffix n = str_append " (round " (str_append (decimal n) ")")

unfoldable pub announce_round :
    Env → Directory → Employee → Option String → WikiPageDraft × Session → WikiPageDraft × Session
announce_round env d author author_note (draft, s) =
    let adapter = wiki_draft_adapter env.id_text in
    let s' =
      log_audit author "resubmit" "wiki_draft" draft.id
        (some (str_append "round " (decimal draft.revision_round))) s in
    let p =
      payload adapter adapter.resubmitted_type "Resubmitted: " (text_or_empty author_note) draft
        author in
    (
      draft,
      tell_many (record p { subject = str_append p.subject (round_suffix draft.revision_round) })
          (adapter.reviewers d draft) s',
    )

unfoldable pub resubmit_wiki_draft :
    Env
    → Directory
    → Employee
    → String
    → Option String
    → WikiPageDraft
    → Session
    → Result InvalidTransition (WikiPageDraft × Session)
resubmit_wiki_draft env d author new_content author_note draft s = do
  assert_status (wiki_draft_adapter env.id_text) draft (needs_revision ∷ [])
  guard (not (is_stranger draft.author_id author)) not_author
  let s' = record s { rounds = s.rounds ++ snapshot env draft ∷ [] }
  ok (
      announce_round env d author author_note
        (enqueue_ai_review env (resubmitted new_content author_note draft) s'))

unfoldable pub resubmit_skill_contribution :
    Directory
    → Employee
    → SkillContribution
    → Session
    → Result InvalidTransition (SkillContribution × Session)
resubmit_skill_contribution d author contribution s = do
  assert_status skill_contribution_adapter contribution (needs_revision ∷ [])
  guard (contribution.contributor_id == author.id) not_author
  let adapter = skill_contribution_adapter
  let obj = record contribution {
    last_returned_note = none;
    revision_round = contribution.revision_round + 1;
    status = pending;
  }
  let s' =
      log_audit author "resubmit" "skill_contribution" obj.id
        (some (str_append "round " (decimal obj.revision_round))) s
  let p = payload adapter adapter.resubmitted_type "Resubmitted: " "" obj author
  ok (
    obj,
    tell_many (record p { subject = str_append p.subject (round_suffix obj.revision_round) })
        (adapter.reviewers d obj) s',
  )
