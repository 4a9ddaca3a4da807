-- ===== src/Contribution/Trail/Events.antt =====
-- What happens to a wiki draft: `request_changes`, `resubmit_wiki_draft` and `withdraw` of
-- app/services/contribution_service.py, and what the endpoints `reject_draft` and `approve_draft` of
-- app/routers/wiki_drafts.py do to a draft and the session.
use Prim.Native.String.{◌++◌ as str_append}
use arkon.Base.{ℕ, String, Option, List, [], ◌∷◌, Result, ok, err, some, if◌then◌else◌}
use arkon.Access.{Employee}
use arkon.Reviewers.{Directory}
use arkon.Contribution.Artifacts.{WikiPageDraft, pending, same_status, wiki_draft_adapter}
use arkon.Contribution.Effects.{Session, Env, log_audit}
use arkon.Contribution.{
  InvalidTransition, notify_rejected, request_changes, withdraw, resubmit_wiki_draft,
}
use arkon.Wiki.{WikiPage, WikiDb, WikiError}
use arkon.Wiki.Approval.{page_of, approve_draft, reject_draft}
use arkon.Review.{World, with_page, slug_label}
use arkon.Review.Approve.{ApproveDraftRequest, Outside, decision_of, session_after}

-- What somebody does to a draft.
pub data Event : Type 0 where
  ask : Employee → Option String → Event
  resubmit : Env → Employee → String → Option String → Event
  take_back : Employee → Event
  turn_down : Env → Employee → String → World → Event
  accept : Outside → Employee → ApproveDraftRequest → World → Event

abbrev pub State : Type 0
State = WikiPageDraft × Session

-- An operation that raises has written nothing.
abbrev pub after : State → Result InvalidTransition State → State
after st (ok r) = r
after st (err e) = st

-- `reject_draft` of app/routers/wiki_drafts.py, for a draft that is loaded
unfoldable pub turned_down : Env → Employee → String → World → WikiPageDraft → Session → State
turned_down env user note w x s =
    let page = page_of x.page_id w.wiki in
    let x' = reject_draft user.id note env.now (with_page page x) in
    let s' =
      log_audit user "update" "wiki_draft" x.id
        (some (str_append "rejected draft for: " (slug_label x page))) s in
    (x', notify_rejected (wiki_draft_adapter env.id_text) user (some note) x' s')

-- `approve_draft` there, by what the service answers; the world holds the other drafts
unfoldable pub accepted :
    Outside
    → Employee
    → World
    → State
    → Result WikiError (WikiPage × (WikiPageDraft × WikiDb))
    → State
accepted o user w st (err e) = st
accepted o user w (x, s) (ok (page, (x', db))) =
    let x'' = with_page (some page) x' in
    (x'', session_after o user (record w { session = s }) page x' x'')

-- One event; the text of an id names a draft with no page. The world of a rejection or an approval has
-- the wiki and the other drafts at that time.
unfoldable pub step : (ℕ → String) → Directory → State → Event → State
step id_text d (x, s) (ask reviewer comment) =
    after (x, s) (request_changes (wiki_draft_adapter id_text) reviewer comment x s)
step id_text d (x, s) (resubmit env author content comment) =
    after (x, s) (resubmit_wiki_draft env d author content comment x s)
step id_text d (x, s) (take_back author) =
    after (x, s) (withdraw (wiki_draft_adapter id_text) d author x s)
step id_text d (x, s) (turn_down env user note w) =
    if same_status x.status pending then turned_down env user note w x s else (x, s)
step id_text d (x, s) (accept o user body w) =
    if same_status x.status pending
    then accepted o user w (x, s) (approve_draft x (decision_of o user body x) w.wiki)
    else (x, s)

unfoldable pub run : (ℕ → String) → Directory → State → List Event → State
run id_text d st [] = st
run id_text d st (e ∷ es) = run id_text d (step id_text d st e) es
