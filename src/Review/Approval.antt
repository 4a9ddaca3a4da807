-- ===== src/Review/Approval.antt =====
-- What an approval through app/routers/wiki_drafts.py takes and leaves.
use arkon.Base.{
  ℕ, ◌≡◌, refl, ◌∙◌, ap, true, not, ◌||◌, some, arith, ok, Bool-cases, Result-cases, inl, inr,
}
use arkon.Access.{Employee, is_admin}
use arkon.Contribution.Artifacts.{pending, approved, same_status, WikiPageDraft}
use arkon.Wiki.{WikiPage, WikiDb}
use arkon.Wiki.Approval.{Decision, approve_draft, approve_page}
use arkon.Wiki.Logbook.{log_line}
use arkon.Wiki.WellFormed.{WellFormed}
use arkon.Wiki.WellFormed.Renewed.{IsRenewed, regenerate_index-append_log}
use arkon.Wiki.WellFormed.Logs.{append_log-WellFormed, regenerate_index-WellFormed}
use arkon.Wiki.WellFormed.History.{done, more, approve, Writes-WellFormed}
use arkon.Review.{World, can_review_draft, load_draft, with_page, commit}
use arkon.Review.Stored.{status_at, stored_lem, from_ok}
use arkon.Review.Approve.{
  ApproveDraftRequest, Outside, is_own, decision_of, wiki_after, session_after, finish, log_entry,
  scope_type_of, approved_world, approve_draft_endpoint,
}

-- the draft that `approve_draft` gives back
approved_lem :
    (draft x : WikiPageDraft) (decision : Decision) (page : WikiPage) (db db' : WikiDb)
    → approve_draft draft decision db ≡ ok (page, (x, db'))
    → (x.status ≡ approved) × (x.id ≡ draft.id)
unfolding approve_draft
approved_lem draft x decision page db db' h = elim (Result-cases (approve_page draft decision db)) [
  | inl ((p, d), a) ↦ let e = rw (approve_draft, a) at h in (ground arith, ground arith)
  | inr (e, a) ↦ absurd (cc (rw (approve_draft, a) at h))
]

wiki_after-WellFormed :
    (o : Outside) (draft : WikiPageDraft) (page : WikiPage) (user : Employee) (db : WikiDb)
    → WellFormed db
    → WellFormed (wiki_after o draft page user db)
unfolding wiki_after
wiki_after-WellFormed o draft page user db wf =
    append_log-WellFormed _ _ _ _ _ (regenerate_index-WellFormed _ _ _ db wf)

-- The service approved the draft with this page; the wiki of the second world is what the service left,
-- with the index and the log of the page's scope renewed.
abbrev pub IsPublished :
    Outside → Employee → ApproveDraftRequest → WikiPageDraft → World → World → Type 0
IsPublished o user body draft w w' =
    (page : WikiPage) × (x : WikiPageDraft) × (db : WikiDb) × (approve_draft draft
        (decision_of o user body draft) w.wiki
      ≡ ok (page, (x, db)))
    × IsRenewed o.ordered (log_line o.ts (log_entry x page user)) (scope_type_of page) page.scope_id
        db w'.wiki

finish_lem :
    (o : Outside) (user : Employee) (body : ApproveDraftRequest) (id : ℕ) (w : World)
    (draft x : WikiPageDraft) (page : WikiPage) (db : WikiDb)
    → WellFormed w.wiki
    → load_draft id w ≡ ok draft
    → approve_draft draft (decision_of o user body draft) w.wiki ≡ ok (page, (x, db))
    → (status_at id (finish o user w page x db) ≡ some approved)
      × WellFormed (finish o user w page x db).wiki
      × IsPublished o user body draft w (finish o user w page x db)
unfolding finish commit with_page load_draft wiki_after
finish_lem o user body id w draft x page db wf l h =
    let decision = decision_of o user body draft in
    let (status, same) = approved_lem draft x decision page w.wiki db h in
    let kept = Writes-WellFormed w.wiki db wf (more done (approve draft x decision page h)) in
    (
      stored_lem id (record w { wiki = wiki_after o x page user db }) _ draft
            (with_page (some page) x) (session_after o user w page x (with_page (some page) x)) l
            same refl
          ∙ ap some status,
      wiki_after-WellFormed o x page user db kept,
      (
        page,
        x,
        db,
        h,
        regenerate_index-append_log o.ordered o.ts (log_entry x page user) (scope_type_of page)
            page.scope_id db kept,
      ),
    )

-- An approval that goes through is of a draft that was pending, by somebody who may review it and
-- who is not its author unless an admin. The stored draft is then approved, and a well-formed wiki
-- stays well-formed. In the scope of the approved page the slug _index finds a page whose text is the
-- index of the other pages of that scope as they then are, and the slug _log one that ends with the line on this
-- approval; every page without such a slug is as the service left it.
pub approve_draft_endpoint-may :
    (o : Outside) (user : Employee) (body : ApproveDraftRequest) (id : ℕ) (w w' : World)
    (draft : WikiPageDraft)
    → WellFormed w.wiki
    → load_draft id w ≡ ok draft
    → approve_draft_endpoint o user body id w ≡ ok w'
    → (same_status draft.status pending ≡ true)
      × (can_review_draft w user draft ≡ true)
      × ((is_admin user || not (is_own draft.author_id user)) ≡ true)
      × (status_at id w' ≡ some approved)
      × WellFormed w'.wiki
      × IsPublished o user body draft w w'
unfolding approve_draft_endpoint approved_world
approve_draft_endpoint-may o user body id w w' draft wf l h =
    elim (Bool-cases (same_status draft.status pending)) [
      | inr p ↦ absurd (cc (rw (approve_draft_endpoint, l, p) at h))
      | inl p ↦ elim (Bool-cases (can_review_draft w user draft)) [
        | inr c ↦ absurd (cc (rw (approve_draft_endpoint, l, p, c) at h))
        | inl c ↦ elim (Bool-cases (is_admin user || not (is_own draft.author_id user))) [
          | inr n ↦ absurd (cc (rw (approve_draft_endpoint, l, p, c, n) at h))
          | inl n ↦
              elim (Result-cases (approve_draft draft (decision_of o user body draft) w.wiki)) [
                | inr (e, a) ↦
                    absurd (cc (rw (approve_draft_endpoint, l, p, c, n, approved_world, a) at h))
                | inl ((page, (x, db)), a) ↦
                    let e = rw (approve_draft_endpoint, l, p, c, n, approved_world, a) at h in
                    let same : finish o user w page x db ≡ w' = from_ok _ w' _ refl e in
                    let (status, kept, published) =
                      finish_lem o user body id w draft x page db wf l a in
                    (p, c, n, rw (← same) status, rw (← same) kept, rw (← same) published)
              ]
        ]
      ]
    ]
