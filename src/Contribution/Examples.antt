-- ===== src/Contribution/Examples.antt =====
-- The theorems on contributions for a single draft.
use arkon.Base.{
  ℕ, ◌≡◌, refl, String, true, none, some, List, [], ◌∷◌, ok, strip, lstrip, rstrip, is_space,
}
use arkon.Samples.{first, admin, worker, directory, draft}
use arkon.Access.{Employee}
use arkon.Contribution.Artifacts.{
  WikiPageDraft, wiki_draft_adapter, pending, needs_revision, withdrawn, draft_reviewers,
}
use arkon.Contribution.Effects.{
  Env, Session, tell, tell_many, log_audit, enqueue_ai_review, is_disabled, decimal, decimal_from,
  lower_codes,
}
use arkon.Contribution.{
  assert_status, payload, tell_author, request_changes, withdraw, snapshot, resubmit_wiki_draft,
  announce_round, resubmitted,
}
use arkon.Contribution.Trail.Events.{Event, ask, resubmit, turn_down, accept, run, step}
use arkon.Review.{World}
use arkon.Review.Approve.{ApproveDraftRequest, Outside}
use arkon.Wiki.Approval.{no_overrides}
use arkon.Contribution.Trail.History.{contents, IsNumbered, Extends, run-IsNumbered, run-contents}

abbrev session : Session
session = record {
  key = 1;
  outbox = record { rows = []; request_staged = none; session_staged = [] };
  audits = [];
  rounds = [];
  jobs = [];
}

abbrev env : Env
env = record {
  ai_pre_review_enabled = some (some "False");
  queue_up = true;
  now = 50;
  id_text = λ n. "id";
}

abbrev id_text : ℕ → String
id_text n = "id"

abbrev returned : WikiPageDraft
returned = record draft { status = needs_revision; last_returned_note = some "fix it" }

abbrev told : Session
told =
    tell_author (wiki_draft_adapter id_text)
      (payload (wiki_draft_adapter id_text) "wiki_draft.changes_requested" "Changes requested on "
        "fix it" returned worker)
      (some 5) (log_audit worker "request_changes" "wiki_draft" 20 (some "fix it") session)

asked :
    request_changes (wiki_draft_adapter id_text) worker (some " fix it ") draft session
    ≡ ok (returned, told)
unfolding request_changes assert_status strip lstrip rstrip is_space
asked = refl

abbrev taken_back : WikiPageDraft
taken_back = record draft { status = withdrawn }

abbrev withdrawal : Session
withdrawal =
    tell_many
      (payload (wiki_draft_adapter id_text) "wiki_draft.withdrawn" "Withdrawn: " "" taken_back
        admin)
      (draft_reviewers directory none) (log_audit admin "withdraw" "wiki_draft" 20 none session)

withdrawn_by_admin :
    withdraw (wiki_draft_adapter id_text) directory admin draft session
    ≡ ok (taken_back, withdrawal)
unfolding withdraw assert_status
withdrawn_by_admin = refl

abbrev author : Employee
author = record worker { id = 5 }

abbrev again : WikiPageDraft
again = record returned {
  content_md = "better";
  last_returned_note = none;
  ai_check_status = "skipped";
  revision_round = 1;
  status = pending;
}

abbrev queued : Session
queued = record session { rounds = snapshot env returned ∷ [] }

resubmitted_once :
    resubmit_wiki_draft env directory author "better" none returned session
    ≡ ok (announce_round env directory author none (again, queued))
unfolding resubmit_wiki_draft assert_status enqueue_ai_review is_disabled lower_codes resubmitted
resubmitted_once = refl

abbrev events : List Event
events = ask worker (some "fix it") ∷ resubmit env author "better" none ∷ []

abbrev world : World
world = record { directory = directory; wiki = first; drafts = draft ∷ []; session = session }

abbrev body : ApproveDraftRequest
body = record {
  reviewer_note = none;
  edited_content_md = none;
  allow_conflict = true;
  overrides = no_overrides;
}

abbrev outside : Outside
outside = record { env = env; ordered = λ ps. ps; ts = "2026-01-01 10:00" }

-- a round, then an approval, and a rejection that comes too late
abbrev reviewed_events : List Event
reviewed_events =
    ask worker (some "fix it")
    ∷ resubmit env author "better" none
    ∷ accept outside admin body world
    ∷ turn_down env admin "no" world
    ∷ []

run-IsNumbered_example : IsNumbered (run id_text directory (draft, session) reviewed_events)
run-IsNumbered_example = run-IsNumbered id_text directory (draft, session) reviewed_events refl

run-contents_example :
    Extends
      (contents (draft, session))
      (contents (run id_text directory (draft, session) reviewed_events))
run-contents_example = run-contents id_text directory (draft, session) reviewed_events

decimals : decimal 0 ∷ decimal 7 ∷ decimal 120 ∷ [] ≡ "0" ∷ "7" ∷ "120" ∷ []
unfolding decimal decimal_from
decimals = refl

-- the returned draft is resubmitted and has one stored round, with its first content
history : contents (run id_text directory (draft, session) events) ≡ "proposed text" ∷ "better" ∷ []
unfolding run step request_changes resubmit_wiki_draft assert_status strip lstrip rstrip is_space
    tell_author tell log_audit enqueue_ai_review is_disabled lower_codes resubmitted snapshot
    announce_round tell_many
history = refl
