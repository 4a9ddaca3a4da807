-- ===== src/Review/Bulk/Moves.antt =====
-- What a bulk approval of app/routers/wiki_drafts.py does to the stored drafts and to the wiki.
use arkon.Base.{
  ℕ, suc, ◌+◌, ◌≡◌, ◌⊎◌, refl, ◌∙◌, sym, Bool, true, false, not, ◌||◌, Option, some, List, [], ◌∷◌,
  length, find, ◌==◌, Result, ok, err, Bool-cases, Option-cases, Result-cases, inl, inr, arith,
}
use arkon.Access.{Employee, is_admin}
use arkon.Contribution.Artifacts.{pending, approved, same_status, WikiPageDraft}
use arkon.Wiki.{WikiPage, WikiDb, WikiError}
use arkon.Wiki.Approval.{Decision, approve_draft, approve_page}
use arkon.Wiki.WellFormed.{WellFormed}
use arkon.Wiki.WellFormed.Logs.{append_log-WellFormed, regenerate_index-WellFormed}
use arkon.Wiki.WellFormed.History.{done, more, approve, Writes-WellFormed}
use arkon.Review.{World, can_review_draft, with_page, put_draft, commit}
use arkon.Review.Stored.{with_page-keeps, find-put_draft, found-id}
use arkon.Review.Approve.{Outside, is_own}
use arkon.Review.Bulk.{
  BulkApproveRequest, BulkApproveResponse, ItemStatus, item_approved, item_skipped, item_error,
  bulk_decision, bulk_wiki, bulk_outcome, bulk_draft, bulk_item, count_item, bulk_approve_loop,
  bulk_approve_drafts,
}

-- the draft that `approve_draft` gives back
reviewed_lem :
    (draft x : WikiPageDraft) (decision : Decision) (page : WikiPage) (db db' : WikiDb)
    → approve_draft draft decision db ≡ ok (page, (x, db'))
    → (x.status ≡ approved) × (x.id ≡ draft.id) × (x.author_id ≡ draft.author_id)
unfolding approve_draft
reviewed_lem draft x decision page db db' h = elim (Result-cases (approve_page draft decision db)) [
  | inl ((p, d), a) ↦
      let e = rw (approve_draft, a) at h in (ground arith, ground arith, ground arith)
  | inr (e, a) ↦ absurd (cc (rw (approve_draft, a) at h))
]

find-put_draft-other :
    (x : WikiPageDraft) (id : ℕ) (xs : List WikiPageDraft)
    → (x.id == id) ≡ false
    → find (λ z. z.id == id) (put_draft x xs) ≡ find (λ z. z.id == id) xs
unfolding put_draft
find-put_draft-other x id [] h = refl
find-put_draft-other x id (z ∷ zs) h = ground (arith, find-put_draft-other x id zs)

module _ (user : Employee) where
  abbrev pub is_other : WikiPageDraft → Bool
  is_other x = is_admin user || not (is_own x.author_id user)

  -- A draft stays as it was, or goes from pending to approved, and not by its own author.
  abbrev pub Moved : WikiPageDraft → WikiPageDraft → Type 0
  Moved x x' =
      (x'.author_id ≡ x.author_id)
      × ((x'.status ≡ x.status)
          ⊎ ((same_status x.status pending ≡ true) × (is_other x ≡ true) × (x'.status ≡ approved)))

  Moved-trans : (x y z : WikiPageDraft) → Moved x y → Moved y z → Moved x z
  Moved-trans x y z (a, inl s) (b, inl t) = (b ∙ a, inl (t ∙ s))
  Moved-trans x y z (a, inr (p, o, s)) (b, inl t) = (b ∙ a, inr (p, o, t ∙ s))
  Moved-trans x y z (a, inl s) (b, inr (p, o, t)) = (b ∙ a, inr (rw s at p, rw a at o, t))
  Moved-trans x y z (a, inr (p, o, s)) (b, inr (q, o', t)) =
      let clash : same_status approved pending ≡ true = rw s at q in absurd (cc clash)

  -- The wiki stays well-formed, and every stored draft moves so.
  pub record Steps (w w' : World) : Type 0 where
    pub wiki : WellFormed w.wiki → WellFormed w'.wiki
    pub drafts :
        (id : ℕ) (x : WikiPageDraft)
        → find (λ z. z.id == id) w.drafts ≡ some x
        → (x' : WikiPageDraft) × (find (λ z. z.id == id) w'.drafts ≡ some x') × Moved x x'

  Steps-nil : (w : World) → Steps w w
  Steps-nil w = record { wiki = λ wf. wf; drafts = λ id x h. (x, h, (refl, inl refl)) }

  Steps-trans : (a b c : World) → Steps a b → Steps b c → Steps a c
  Steps-trans a b c s t = record {
    wiki = λ wf. t.wiki (s.wiki wf);
    drafts = λ id x h.
        let (y, hy, m) = s.drafts id x h in
        let (z, hz, n) = t.drafts id y hy in (z, hz, Moved-trans x y z m n);
  }

  -- a draft that goes from pending to approved, put back
  put-moves :
      (xs : List WikiPageDraft) (draft x' : WikiPageDraft) (gone : ℕ)
      → find (λ z. z.id == gone) xs ≡ some draft
      → x'.id ≡ gone
      → Moved draft x'
      → (id : ℕ) (x : WikiPageDraft) → find (λ z. z.id == id) xs ≡ some x
      → (y : WikiPageDraft) × (find (λ z. z.id == id) (put_draft x' xs) ≡ some y) × Moved x y
  put-moves xs draft x' gone there same moved id x h = elim (Bool-cases (x'.id == id)) [
    | inr other ↦ (x, find-put_draft-other x' id xs other ∙ h, (refl, inl refl))
    | inl e ↦
        let here : x'.id ≡ id = ground arith in
        let it : gone ≡ id = sym same ∙ here in
        let there' : find (λ z. z.id == id) xs ≡ some draft = rw it at there in
        let row : draft ≡ x = cc in (x', find-put_draft x' draft id xs there' here, rw row at moved)
  ]

  module _ (o : Outside) (body : BulkApproveRequest) where
    bulk_wiki-WellFormed :
        (page : WikiPage) (db : WikiDb) → WellFormed db → WellFormed (bulk_wiki o user body page db)
    unfolding bulk_wiki
    bulk_wiki-WellFormed page db wf =
        append_log-WellFormed _ _ _ _ _ (regenerate_index-WellFormed _ _ _ db wf)

    bulk_outcome-Steps :
        (w : World) (draft : WikiPageDraft) (id : ℕ)
        (outcome : Result WikiError (WikiPage × (WikiPageDraft × WikiDb)))
        → find (λ z. z.id == id) w.drafts ≡ some draft
        → same_status draft.status pending ≡ true
        → is_other draft ≡ true
        → approve_draft draft (bulk_decision o user body) w.wiki ≡ outcome
        → Steps w (bulk_outcome o user body w draft outcome).1
    unfolding bulk_outcome commit
    bulk_outcome-Steps w draft id (err e) there p n a = Steps-nil w
    bulk_outcome-Steps w draft id (ok (page, (x, db))) there p n a =
        let (status, same_id, same_author) =
          reviewed_lem draft x (bulk_decision o user body) page w.wiki db a in
        let (kept_status, kept_author, kept_id) = with_page-keeps (some page) x in
        record {
          wiki = λ wf. bulk_wiki-WellFormed page db (
              Writes-WellFormed w.wiki db wf
                (more done (approve draft x (bulk_decision o user body) page a)));
          drafts =
              put-moves w.drafts draft (with_page (some page) x) id there
                (kept_id ∙ same_id ∙ found-id id w.drafts draft there)
                (kept_author ∙ same_author, inr (p, n, kept_status ∙ status));
        }

    bulk_draft-Steps :
        (w : World) (draft : WikiPageDraft) (id : ℕ)
        → find (λ z. z.id == id) w.drafts ≡ some draft
        → Steps w (bulk_draft o user body draft w).1
    unfolding bulk_draft
    bulk_draft-Steps w draft id there = elim (Bool-cases (same_status draft.status pending)) [
      | inr p ↦ rw p (Steps-nil w)
      | inl p ↦ elim (Bool-cases (can_review_draft w user draft)) [
        | inr c ↦ rw (p, c) (Steps-nil w)
        | inl c ↦ elim (Bool-cases (is_other draft)) [
          | inr n ↦ rw (p, c, n) (Steps-nil w)
          | inl n ↦ rw (p, c, n) (bulk_outcome-Steps w draft id _ there p n refl)
        ]
      ]
    ]

    bulk_item-Steps : (id : ℕ) (w : World) → Steps w (bulk_item o user body id w).1
    unfolding bulk_item
    bulk_item-Steps id w = elim (Option-cases (find (λ z. z.id == id) w.drafts)) [
      | inl gone ↦ rw (bulk_item, gone) (Steps-nil w)
      | inr (draft, there) ↦ rw (bulk_item, there) (bulk_draft-Steps w draft id there)
    ]

    bulk_approve_loop-Steps :
        (ids : List ℕ) (w : World) → Steps w (bulk_approve_loop o user body ids w).1
    unfolding bulk_approve_loop
    bulk_approve_loop-Steps [] w = Steps-nil w
    bulk_approve_loop-Steps (id ∷ ids) w =
        Steps-trans w (bulk_item o user body id w).1 _ (bulk_item-Steps id w)
          (bulk_approve_loop-Steps ids (bulk_item o user body id w).1)

    one_more :
        (id : ℕ) (result : ItemStatus × Option ℕ) (r : BulkApproveResponse) (n : ℕ)
        → length r.results ≡ n
        → r.approved + r.skipped + r.errored ≡ n
        → let r' = count_item o user body id result r in
          (length r'.results ≡ suc n) × (r'.approved + r'.skipped + r'.errored ≡ suc n)
    unfolding count_item
    one_more id (item_approved, v) r n h k = (omega arith, omega arith)
    one_more id (item_skipped, v) r n h k = (omega arith, omega arith)
    one_more id (item_error, v) r n h k = (omega arith, omega arith)

    bulk_approve_loop-counts :
        (ids : List ℕ) (w : World)
        → let r = (bulk_approve_loop o user body ids w).0 in
          (length r.results ≡ length ids) × (r.approved + r.skipped + r.errored ≡ length ids)
    unfolding bulk_approve_loop
    bulk_approve_loop-counts [] w = (refl, refl)
    bulk_approve_loop-counts (id ∷ ids) w =
        let rest = bulk_approve_loop-counts ids (bulk_item o user body id w).1 in
        one_more id (bulk_item o user body id w).0 _ (length ids) rest.0 rest.1

-- A bulk approval keeps a well-formed wiki well-formed, whatever drafts it names and however many of
-- them fail; every stored draft is as it was in its status, or it was pending and is approved, and
-- then not by its own author unless an admin; and the three counts add up to the ids.
pub bulk_approve_drafts-moves :
    (o : Outside) (user : Employee) (body : BulkApproveRequest) (w : World)
    → WellFormed w.wiki
    → WellFormed (bulk_approve_drafts o user body w).1.wiki
      × ((id : ℕ) (x : WikiPageDraft)
          → find (λ z. z.id == id) w.drafts ≡ some x
          → (x' : WikiPageDraft) × (find
                (λ z. z.id == id)
                (bulk_approve_drafts o user body w).1.drafts
              ≡ some x')
            × Moved user x x')
      × ((bulk_approve_drafts o user body w).0.approved
            + (bulk_approve_drafts o user body w).0.skipped
            + (bulk_approve_drafts o user body w).0.errored
          ≡ length body.draft_ids)
unfolding bulk_approve_drafts
bulk_approve_drafts-moves o user body w wf =
    let steps = bulk_approve_loop-Steps user o body body.draft_ids w in
    (steps.wiki wf, steps.drafts, (bulk_approve_loop-counts user o body body.draft_ids w).1)
