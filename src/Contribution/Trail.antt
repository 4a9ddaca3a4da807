-- ===== src/Contribution/Trail.antt =====
-- The rounds of a wiki draft: what a resubmission keeps of the submission that it replaces.
pub mod Events
pub mod History
use arkon.Base.{◌+◌, String, ◌≡◌, false, Option, none, [], ◌∷◌, ◌++◌, arith, ok}
use arkon.Access.{Employee}
use arkon.Reviewers.{Directory}
use arkon.Contribution.Artifacts.{pending, needs_revision, WikiPageDraft}
use arkon.Contribution.Effects.{Session, Env, enqueue_ai_review, log_audit, tell_many}
use arkon.Contribution.{
  is_stranger, assert_status, resubmitted, snapshot, announce_round, resubmit_wiki_draft,
}

-- What the AI review leaves alone when it is queued.
enqueue_keeps :
    (env : Env) (draft : WikiPageDraft) (s : Session)
    → ((enqueue_ai_review env draft s).0.status ≡ draft.status)
      × ((enqueue_ai_review env draft s).0.id ≡ draft.id)
      × ((enqueue_ai_review env draft s).0.author_id ≡ draft.author_id)
      × ((enqueue_ai_review env draft s).0.revision_round ≡ draft.revision_round)
      × ((enqueue_ai_review env draft s).0.content_md ≡ draft.content_md)
      × ((enqueue_ai_review env draft s).0.last_returned_note ≡ draft.last_returned_note)
      × ((enqueue_ai_review env draft s).1.rounds ≡ s.rounds)
unfolding enqueue_ai_review
enqueue_keeps env draft s = ground arith

-- A resubmission succeeds only on a returned draft, and only for its author if one is recorded. It
-- stores the replaced submission as a round with the draft's old number and content, and leaves the
-- draft pending, with the new content, the next number, the same author and no returned note.
pub resubmit_wiki_draft_lem :
    (env : Env) (d : Directory) (author : Employee) (content : String) (comment : Option String)
    (draft : WikiPageDraft) (s : Session) {draft' : WikiPageDraft} {s' : Session}
    → resubmit_wiki_draft env d author content comment draft s ≡ ok (draft', s')
    → (draft.status ≡ needs_revision)
      × (is_stranger draft.author_id author ≡ false)
      × (draft'.status ≡ pending)
      × (draft'.id ≡ draft.id)
      × (draft'.author_id ≡ draft.author_id)
      × (draft'.content_md ≡ content)
      × (draft'.revision_round ≡ draft.revision_round + 1)
      × (draft'.last_returned_note ≡ none)
      × (s'.rounds ≡ s.rounds ++ snapshot env draft ∷ [])
unfolding resubmit_wiki_draft assert_status announce_round resubmitted tell_many log_audit
resubmit_wiki_draft_lem env d author content comment draft s h = ground (
  arith,
  enqueue_keeps env (resubmitted content comment draft)
      (record s { rounds = s.rounds ++ snapshot env draft ∷ [] }),
)
