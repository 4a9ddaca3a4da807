-- ===== src/Review/Authority.antt =====
-- Who may move a draft, and from where to where, through the endpoints of
-- app/routers/wiki_drafts.py.
use arkon.Base.{
  ℕ, String, ◌≡◌, refl, Bool, true, false, not, ◌&&◌, ◌||◌, Option, some, ok, inl, inr, Bool-cases,
  ◌∙◌, sym, ap, strip,
}
use arkon.Access.{Employee, is_admin}
use arkon.Contribution.Artifacts.{
  Status, pending, needs_revision, withdrawn, rejected, same_status, WikiPageDraft,
  wiki_draft_adapter, wiki_draft_adapter-IsAdapter,
}
use arkon.Contribution.Effects.{Env, Session}
use arkon.Contribution.{is_stranger, request_changes, withdraw, resubmit_wiki_draft}
use arkon.Contribution.Transitions.{request_changes_lem, withdraw_lem}
use arkon.Contribution.Trail.{resubmit_wiki_draft_lem}
use arkon.Wiki.Approval.{page_of, reject_draft}
use arkon.Review.{
  World, can_review_draft, load_draft, with_page, commit, is_note, is_content,
  request_changes_on_draft, resubmit_draft, withdraw_draft, reject_draft_endpoint, Action,
  ask_changes, resubmit, take_back, reject, perform,
}
use arkon.Review.Stored.{
  status_at, with_page-keeps, committed_lem, from_ok, stored_lem, ask-id, take_back-id,
}

-- who may take an action on a draft; nobody is a stranger to a draft that has no author
abbrev pub may : World → Employee → WikiPageDraft → Action → Bool
may w user draft (ask_changes _) = can_review_draft w user draft
may w user draft (resubmit _ _) = not (is_stranger draft.author_id user)
may w user draft take_back = not (is_stranger draft.author_id user && not (is_admin user))
may w user draft (reject _) = can_review_draft w user draft

-- the state that an action leads to
abbrev pub target : Action → Status
target (ask_changes _) = needs_revision
target (resubmit _ _) = pending
target take_back = withdrawn
target (reject _) = rejected

-- and those that it starts from
abbrev pub starts : Action → Status → Bool
starts (ask_changes _) s = same_status s pending
starts (resubmit _ _) s = same_status s needs_revision
starts take_back s = same_status s pending || same_status s needs_revision
starts (reject _) s = same_status s pending

module _ (env : Env) (user : Employee) (id : ℕ) (w w' : World) (draft : WikiPageDraft)
    (l : load_draft id w ≡ ok draft) where
  -- What an action that went through shows.
  abbrev Moved : Action → Type 0
  Moved a =
      (may w user draft a ≡ true)
      × (starts a draft.status ≡ true)
      × (status_at id w' ≡ some (target a))

  -- the draft as the endpoint hands it to the service
  abbrev handed : WikiPageDraft
  handed = with_page (page_of draft.page_id w.wiki) draft

  ask_done :
      (note : String) (x : WikiPageDraft) (s : Session)
      → can_review_draft w user draft ≡ true
      → request_changes (wiki_draft_adapter env.id_text) user (some note) handed w.session
        ≡ ok (x, s)
      → commit w (x, s) ≡ w'
      → Moved (ask_changes note)
  ask_done note x s c done stored =
      let (status, author, same) = with_page-keeps (page_of draft.page_id w.wiki) draft in
      let facts =
        request_changes_lem (wiki_draft_adapter env.id_text)
          (wiki_draft_adapter-IsAdapter env.id_text) user (some note) handed w.session done in
      let now =
        stored_lem id w w' draft x s l
          (ask-id env.id_text user note handed x w.session s done ∙ same) stored in
      (c, rw (sym status ∙ facts.0) refl, rw facts.2 at now)

  ask-Moved :
      (note : String)
      → request_changes_on_draft env user note id w ≡ ok w'
      → Moved (ask_changes note)
  unfolding request_changes_on_draft
  ask-Moved note h = elim (Bool-cases (is_note note)) [
    | inr n ↦ absurd (cc (rw (request_changes_on_draft, n) at h))
    | inl n ↦ elim (Bool-cases (can_review_draft w user draft)) [
      | inr c ↦ absurd (cc (rw (request_changes_on_draft, n, l, c) at h))
      | inl c ↦
          let (x, s, done, stored) =
            committed_lem 400 w w' _ (rw (request_changes_on_draft, n, l, c) at h) in
          ask_done note x s c done stored
    ]
  ]

  resubmit_done :
      (content : String) (comment : Option String) (x : WikiPageDraft) (s : Session)
      → resubmit_wiki_draft env w.directory user (strip content) comment handed w.session
        ≡ ok (x, s)
      → commit w (x, s) ≡ w'
      → Moved (resubmit content comment)
  resubmit_done content comment x s done stored =
      let (status, author, same) = with_page-keeps (page_of draft.page_id w.wiki) draft in
      let facts =
        resubmit_wiki_draft_lem env w.directory user (strip content) comment handed w.session
          done in
      let now = stored_lem id w w' draft x s l (facts.3 ∙ same) stored in
      let mine : is_stranger draft.author_id user ≡ false =
        ap (λ a. is_stranger a user) (sym author) ∙ facts.1 in
      (rw mine refl, rw (sym status ∙ facts.0) refl, rw facts.2 at now)

  resubmit-Moved :
      (content : String) (comment : Option String)
      → resubmit_draft env user content comment id w ≡ ok w'
      → Moved (resubmit content comment)
  unfolding resubmit_draft
  resubmit-Moved content comment h = elim (Bool-cases (is_content content)) [
    | inr n ↦ absurd (cc (rw (resubmit_draft, n) at h))
    | inl n ↦
        let (x, s, done, stored) = committed_lem 400 w w' _ (rw (resubmit_draft, n, l) at h) in
        resubmit_done content comment x s done stored
  ]

  take_back_done :
      (x : WikiPageDraft) (s : Session)
      → withdraw (wiki_draft_adapter env.id_text) w.directory user handed w.session ≡ ok (x, s)
      → commit w (x, s) ≡ w'
      → Moved take_back
  take_back_done x s done stored =
      let (status, author, same) = with_page-keeps (page_of draft.page_id w.wiki) draft in
      let facts =
        withdraw_lem (wiki_draft_adapter env.id_text) (wiki_draft_adapter-IsAdapter env.id_text)
          w.directory user handed w.session done in
      let now =
        stored_lem id w w' draft x s l
          (take_back-id env.id_text w.directory user handed x w.session s done ∙ same) stored in
      let mine : (is_stranger draft.author_id user && not (is_admin user)) ≡ false =
        ap (λ a. is_stranger a user && not (is_admin user)) (sym author) ∙ facts.1 in
      let from : starts take_back draft.status ≡ true = elim facts.0 [
        | inl p ↦ rw (sym status ∙ p) refl
        | inr p ↦ rw (sym status ∙ p) refl
      ] in
      (rw mine refl, from, rw facts.2 at now)

  take_back-Moved : withdraw_draft env user id w ≡ ok w' → Moved take_back
  unfolding withdraw_draft
  take_back-Moved h =
      let (x, s, done, stored) = committed_lem 403 w w' _ (rw (withdraw_draft, l) at h) in
      take_back_done x s done stored

  reject-Moved :
      (note : String) → reject_draft_endpoint env user note id w ≡ ok w' → Moved (reject note)
  unfolding reject_draft_endpoint reject_draft
  reject-Moved note h = elim (Bool-cases (is_note note)) [
    | inr n ↦ absurd (cc (rw (reject_draft_endpoint, n) at h))
    | inl n ↦ elim (Bool-cases (same_status draft.status pending)) [
      | inr p ↦ absurd (cc (rw (reject_draft_endpoint, n, l, p) at h))
      | inl p ↦ elim (Bool-cases (can_review_draft w user draft)) [
        | inr c ↦ absurd (cc (rw (reject_draft_endpoint, n, l, p, c) at h))
        | inl c ↦
            let (status, author, same) = with_page-keeps (page_of draft.page_id w.wiki) draft in
            let e = rw (reject_draft_endpoint, n, l, p, c) at h in
            (c, p, stored_lem id w w' draft _ _ l same (from_ok _ w' _ refl e))
      ]
    ]
  ]

  -- If a request for changes, a resubmission, a withdrawal or a rejection of a stored draft goes
  -- through, then the person may do it, the draft was in a state that the action starts from, and the
  -- stored draft is in the state that it leads to. A reviewer sends back or rejects. The author
  -- resubmits; the author or an admin withdraws; where no author is recorded for the draft, anybody
  -- may do both.
  pub perform-may :
      (a : Action)
      → perform env user a id w ≡ ok w'
      → (may w user draft a ≡ true)
        × (starts a draft.status ≡ true)
        × (status_at id w' ≡ some (target a))
  unfolding perform
  perform-may (ask_changes note) h = ask-Moved note h
  perform-may (resubmit content comment) h = resubmit-Moved content comment h
  perform-may take_back h = take_back-Moved h
  perform-may (reject note) h = reject-Moved note h
