-- ===== src/Review/Stored.antt =====
-- The stored drafts of app/routers/wiki_drafts.py after a commit, and what the operations of
-- app/services/contribution_service.py leave as it was.
use arkon.Base.{
  ℕ, String, ◌≡◌, refl, Option, none, some, List, [], ◌∷◌, find, ◌==◌, arith, Result, ok, err, inl,
  inr, Option-cases, ◌∙◌,
}
use arkon.Access.{Employee}
use arkon.Reviewers.{Directory}
use arkon.Contribution.Artifacts.{Status, WikiPageDraft, wiki_draft_adapter}
use arkon.Contribution.Effects.{Session}
use arkon.Contribution.{InvalidTransition, assert_status, request_changes, withdraw}
use arkon.Wiki.{WikiPage}
use arkon.Review.{World, load_draft, with_page, put_draft, commit, committed}

-- what is stored of a draft's status
abbrev pub status_at : ℕ → World → Option Status
status_at id w = elim (find (λ x. x.id == id) w.drafts) [ none ↦ none | some x ↦ some x.status ]

pub with_page-keeps :
    (p : Option WikiPage) (x : WikiPageDraft)
    → ((with_page p x).status ≡ x.status)
      × ((with_page p x).author_id ≡ x.author_id)
      × ((with_page p x).id ≡ x.id)
unfolding with_page
with_page-keeps none x = (refl, refl, refl)
with_page-keeps (some p) x = (refl, refl, refl)

pub find-put_draft :
    (x y : WikiPageDraft) (id : ℕ) (xs : List WikiPageDraft)
    → find (λ z. z.id == id) xs ≡ some y
    → x.id ≡ id
    → find (λ z. z.id == id) (put_draft x xs) ≡ some x
unfolding put_draft
find-put_draft x y id [] h e = absurd (cc h)
find-put_draft x y id (z ∷ zs) h e = ground (arith, find-put_draft x y id zs)

pub committed_lem :
    (status : ℕ) (w w' : World) (r : Result InvalidTransition (WikiPageDraft × Session))
    → committed status w r ≡ ok w'
    → (x : WikiPageDraft) × (s : Session) × (r ≡ ok (x, s)) × (commit w (x, s) ≡ w')
unfolding committed
committed_lem status w w' (ok (x, s)) h = (x, s, refl, cc h)
committed_lem status w w' (err e) h = absurd (cc h)

pub from_ok : (v w : World) (x : Result ℕ World) → x ≡ ok v → x ≡ ok w → v ≡ w
from_ok v w x e e' = cc

pub load_lem :
    (id : ℕ) (w : World) (draft : WikiPageDraft)
    → load_draft id w ≡ ok draft
    → find (λ x. x.id == id) w.drafts ≡ some draft
unfolding load_draft
load_lem id w draft h = elim (Option-cases (find (λ x. x.id == id) w.drafts)) [
  | inl a ↦ absurd (cc (rw (load_draft, a) at h))
  | inr (x, a) ↦ let same : ok x ≡ ok draft = rw (load_draft, a) at h in cc
]

pub found-id :
    (id : ℕ) (xs : List WikiPageDraft) (x : WikiPageDraft)
    → find (λ z. z.id == id) xs ≡ some x
    → x.id ≡ id
found-id id [] x h = absurd (cc h)
found-id id (z ∷ zs) x h = ground (arith, found-id id zs x)

-- what a commit leaves in the store
pub stored_lem :
    (id : ℕ) (w w' : World) (draft x : WikiPageDraft) (s : Session)
    → load_draft id w ≡ ok draft
    → x.id ≡ draft.id
    → commit w (x, s) ≡ w'
    → status_at id w' ≡ some x.status
unfolding commit
stored_lem id w w' draft x s l same c =
    let found = load_lem id w draft l in
    let here : x.id ≡ id = same ∙ found-id id w.drafts draft found in
    let after : find (λ z. z.id == id) (put_draft x w.drafts) ≡ some x =
      find-put_draft x draft id w.drafts found here in
    rw (← c) (rw (status_at, after) refl)

pub ask-id :
    (t : ℕ → String) (user : Employee) (note : String) (x x' : WikiPageDraft) (s s' : Session)
    → request_changes (wiki_draft_adapter t) user (some note) x s ≡ ok (x', s')
    → x'.id ≡ x.id
unfolding request_changes assert_status
ask-id t user note x x' s s' h = ground arith

pub take_back-id :
    (t : ℕ → String) (d : Directory) (user : Employee) (x x' : WikiPageDraft) (s s' : Session)
    → withdraw (wiki_draft_adapter t) d user x s ≡ ok (x', s')
    → x'.id ≡ x.id
unfolding withdraw assert_status
take_back-id t d user x x' s s' h = ground arith
