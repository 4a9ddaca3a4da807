-- ===== src/Contribution/Trail/History.antt =====
-- The history of a wiki draft over any sequence of requests for changes, resubmissions, withdrawals,
-- rejections and approvals, by anybody, successful or not.
use mathlib.Core.List.{append_assoc, append-nil, map-append}
use native.Mathlib.Numerals.{add-one}
use arkon.Base.{
  ℕ, suc, zero, ◌+◌, String, ◌≡◌, refl, sym, Option, List, [], ◌∷◌, ◌++◌, map, keep, arith, ◌==◌,
  Result, ok, err, Bool-cases, Result-cases, inl, inr,
}
use arkon.Access.{Employee}
use arkon.Reviewers.{Directory}
use arkon.Contribution.Artifacts.{WikiPageDraft, pending, same_status, wiki_draft_adapter}
use arkon.Contribution.Effects.{Session, Env, WikiDraftRound, log_audit, tell, tell_many, tell_each}
use arkon.Contribution.{
  InvalidTransition, notify_rejected, assert_status, tell_author, request_changes, withdraw,
  snapshot, resubmit_wiki_draft,
}
use arkon.Contribution.Approved.{tell_siblings, notify_approved}
use arkon.Wiki.{WikiPage, WikiDb}
use arkon.Wiki.Approval.{Decision, approve_page, approve_draft, reject_draft}
use arkon.Review.{World, with_page}
use arkon.Review.Approve.{ApproveDraftRequest, Outside, decision_of, session_after}
use arkon.Contribution.Trail.{resubmit_wiki_draft_lem}
use arkon.Contribution.Trail.Events.{
  Event, ask, resubmit, take_back, turn_down, accept, State, after, turned_down, accepted, step,
  run,
}

abbrev pub rounds_of : ℕ → List WikiDraftRound → List WikiDraftRound
rounds_of id rounds = keep (λ r. r.draft_id == id) rounds

-- 0, 1, …, n - 1
abbrev pub count_up : ℕ → List ℕ
count_up zero = []
count_up (suc n) = count_up n ++ n ∷ []

-- The numbers of the rounds that are stored for the draft.
abbrev pub numbers : State → List ℕ
numbers (x, s) = map (λ r. r.round_no) (rounds_of x.id s.rounds)

-- Every content that was submitted: those of the stored rounds, and the current one.
abbrev pub contents : State → List String
contents (x, s) = map (λ r. r.content_md) (rounds_of x.id s.rounds) ++ x.content_md ∷ []

-- What a step can do to the record of a draft: nothing, or add the submission that it replaces.
pub data Recorded (x : WikiPageDraft) (s : Session) (x' : WikiPageDraft) (s' : Session)
    : Type 0 where
  same :
      x'.id ≡ x.id
      → x'.content_md ≡ x.content_md
      → x'.revision_round ≡ x.revision_round
      → s'.rounds ≡ s.rounds
      → Recorded x s x' s'
  added :
      (r : WikiDraftRound)
      → x'.id ≡ x.id
      → x'.revision_round ≡ x.revision_round + 1
      → r.draft_id ≡ x.id
      → r.round_no ≡ x.revision_round
      → r.content_md ≡ x.content_md
      → s'.rounds ≡ s.rounds ++ r ∷ []
      → Recorded x s x' s'

module _ (x : WikiPageDraft) (s : Session) {x' : WikiPageDraft} {s' : Session} where
  request_changes-Recorded :
      (id_text : ℕ → String) (reviewer : Employee) (comment : Option String)
      → request_changes (wiki_draft_adapter id_text) reviewer comment x s ≡ ok (x', s')
      → Recorded x s x' s'
  unfolding request_changes assert_status tell_author tell log_audit
  request_changes-Recorded id_text reviewer comment h =
      same (ground arith) (ground arith) (ground arith) (ground arith)

  withdraw-Recorded :
      (id_text : ℕ → String) (d : Directory) (author : Employee)
      → withdraw (wiki_draft_adapter id_text) d author x s ≡ ok (x', s')
      → Recorded x s x' s'
  unfolding withdraw assert_status tell_many log_audit
  withdraw-Recorded id_text d author h =
      same (ground arith) (ground arith) (ground arith) (ground arith)

  resubmit-Recorded :
      (env : Env) (d : Directory) (author : Employee) (content : String) (comment : Option String)
      → resubmit_wiki_draft env d author content comment x s ≡ ok (x', s')
      → Recorded x s x' s'
  unfolding snapshot
  resubmit-Recorded env d author content comment h =
      let facts = resubmit_wiki_draft_lem env d author content comment x s h in
      added (snapshot env x) facts.3 facts.6 refl refl refl facts.8

turned_down-Recorded :
    (env : Env) (user : Employee) (note : String) (w : World) (x : WikiPageDraft) (s : Session)
    → Recorded x s (turned_down env user note w x s).0 (turned_down env user note w x s).1
unfolding turned_down reject_draft with_page notify_rejected tell_author tell log_audit
turned_down-Recorded env user note w x s =
    same (ground arith) (ground arith) (ground arith) (ground arith)

session_after-rounds :
    (o : Outside) (user : Employee) (w : World) (page : WikiPage) (x y : WikiPageDraft)
    → (session_after o user w page x y).rounds ≡ w.session.rounds
unfolding session_after notify_approved tell_siblings tell_each tell log_audit
session_after-rounds o user w page x y = ground arith

-- An approval leaves the draft's own content and round.
approved-fields :
    (x x' : WikiPageDraft) (decision : Decision) (page : WikiPage) (db db' : WikiDb)
    → approve_draft x decision db ≡ ok (page, (x', db'))
    → (x'.id ≡ x.id) × (x'.content_md ≡ x.content_md) × (x'.revision_round ≡ x.revision_round)
unfolding approve_draft
approved-fields x x' decision page db db' h = elim (Result-cases (approve_page x decision db)) [
  | inl ((p, d), a) ↦
      let e = rw (approve_draft, a) at h in (ground arith, ground arith, ground arith)
  | inr (e, a) ↦ absurd (cc (rw (approve_draft, a) at h))
]

accepted-Recorded :
    (o : Outside) (user : Employee) (body : ApproveDraftRequest) (w : World) (x : WikiPageDraft)
    (s : Session)
    → let r = approve_draft x (decision_of o user body x) w.wiki in
      Recorded x s (accepted o user w (x, s) r).0 (accepted o user w (x, s) r).1
unfolding accepted with_page
accepted-Recorded o user body w x s =
    elim (Result-cases (approve_draft x (decision_of o user body x) w.wiki)) [
      | inl ((page, (x', db)), a) ↦
          let facts = approved-fields x x' _ page w.wiki db a in
          rw (accepted, a)
            (same facts.0 facts.1 facts.2
              (session_after-rounds o user (record w { session = s }) page x' _))
      | inr (e, a) ↦ rw (accepted, a) (same refl refl refl refl)
    ]

after-Recorded :
    (x : WikiPageDraft) (s : Session) (r : Result InvalidTransition State)
    → ((x' : WikiPageDraft) (s' : Session) → r ≡ ok (x', s') → Recorded x s x' s')
    → Recorded x s (after (x, s) r).0 (after (x, s) r).1
after-Recorded x s (ok (x', s')) h = h x' s' refl
after-Recorded x s (err e) h = same refl refl refl refl

step-Recorded :
    (id_text : ℕ → String) (d : Directory) (x : WikiPageDraft) (s : Session) (e : Event)
    → Recorded x s (step id_text d (x, s) e).0 (step id_text d (x, s) e).1
unfolding step
step-Recorded id_text d x s (ask reviewer comment) =
    after-Recorded x s _ (λ x' s' h. request_changes-Recorded x s id_text reviewer comment h)
step-Recorded id_text d x s (resubmit env author content comment) =
    after-Recorded x s _ (λ x' s' h. resubmit-Recorded x s env d author content comment h)
step-Recorded id_text d x s (take_back author) =
    after-Recorded x s _ (λ x' s' h. withdraw-Recorded x s id_text d author h)
step-Recorded id_text d x s (turn_down env user note w) =
    elim (Bool-cases (same_status x.status pending)) [
      | inl p ↦ rw p (turned_down-Recorded env user note w x s)
      | inr p ↦ rw p (same refl refl refl refl)
    ]
step-Recorded id_text d x s (accept o user body w) =
    elim (Bool-cases (same_status x.status pending)) [
      | inl p ↦ rw p (accepted-Recorded o user body w x s)
      | inr p ↦ rw p (same refl refl refl refl)
    ]

rounds_of-append :
    (id : ℕ) (rounds : List WikiDraftRound) (r : WikiDraftRound)
    → r.draft_id ≡ id
    → rounds_of id (rounds ++ r ∷ []) ≡ rounds_of id rounds ++ r ∷ []
rounds_of-append id [] r h = rw h (ground arith)
rounds_of-append id (q ∷ rounds) r h = ground (arith, rounds_of-append id rounds r h)

-- The stored rounds of the draft have the numbers 0, 1, … below its own, in this order.
abbrev pub IsNumbered : State → Type 0
IsNumbered st = numbers st ≡ count_up st.0.revision_round

Recorded-IsNumbered :
    {x x' : WikiPageDraft} {s s' : Session}
    → Recorded x s x' s'
    → IsNumbered (x, s)
    → IsNumbered (x', s')
Recorded-IsNumbered (same i c n r) h = rw (i, n, r) h
Recorded-IsNumbered {x} {x'} {s} {s'} (added q i n own number content r) h =
    simp (i, r, n, add-one, rounds_of-append x.id s.rounds q own, map-append, h, number)

-- `ys` is `xs` with more behind it.
abbrev pub Extends {ℓ} : {A : Type ℓ} → List A → List A → Type ℓ
Extends {A = A} xs ys = (more : List A) × (ys ≡ xs ++ more)

Recorded-contents :
    {x x' : WikiPageDraft} {s s' : Session}
    → Recorded x s x' s'
    → Extends (contents (x, s)) (contents (x', s'))
Recorded-contents (same i c n r) = ([], simp (i, c, r, append-nil))
Recorded-contents {x} {x'} {s} {s'} (added q i n own number content r) =
    (x'.content_md ∷ [], simp (i, r, rounds_of-append x.id s.rounds q own, map-append, content))

Extends-trans : {A : Type 0} (xs ys zs : List A) → Extends xs ys → Extends ys zs → Extends xs zs
Extends-trans xs ys zs (m, p) (n, q) = (m ++ n, rw (q, p) (append_assoc xs m n))

-- From a draft whose stored rounds are numbered below its own number, however requests for changes,
-- resubmissions, withdrawals, rejections and approvals follow each other, by anybody, successful or
-- not, the stored rounds stay so numbered. The deletion of the page, which deletes its drafts, is not
-- among these events.
pub run-IsNumbered :
    (id_text : ℕ → String) (d : Directory) (st : State) (es : List Event)
    → IsNumbered st
    → IsNumbered (run id_text d st es)
unfolding run
run-IsNumbered id_text d st [] h = h
run-IsNumbered id_text d (x, s) (e ∷ es) h =
    run-IsNumbered id_text d (step id_text d (x, s) e) es
      (Recorded-IsNumbered (step-Recorded id_text d x s e) h)

-- However requests for changes, resubmissions, withdrawals, rejections and approvals of a draft follow
-- each other, by anybody, successful or not, the contents submitted so far stay on record, in their
-- order, before those that are submitted later. The deletion of the page, which deletes its drafts, is
-- not among these events.
pub run-contents :
    (id_text : ℕ → String) (d : Directory) (st : State) (es : List Event)
    → Extends (contents st) (contents (run id_text d st es))
unfolding run
run-contents id_text d st [] = ([], sym (append-nil (contents st)))
run-contents id_text d (x, s) (e ∷ es) =
    Extends-trans _ _ _ (Recorded-contents (step-Recorded id_text d x s e))
      (run-contents id_text d (step id_text d (x, s) e) es)
