-- ===== src/Review/Proposals/Refused.antt =====
-- A new page proposed through app/routers/wiki_drafts.py and its approval.
use Prim.Native.String.{◌++◌ as str_append}
use arkon.Base.{
  lstrip, rstrip, ℕ, ◌≡◌, refl, String, true, false, not, ◌||◌, Option, none, some, find, ◌==◌,
  str_eq, str_elem, str_eq_iff, ok, err, Bool-cases, inl, inr, guard-ok, is_blank, strip,
  strip_idem, arith,
}
use arkon.Access.{Employee, is_admin, is_some}
use arkon.Reviewers.{can_propose}
use arkon.Contribution.Artifacts.{pending, same_status, WikiPageDraft}
use arkon.Contribution.Effects.{log_audit}
use arkon.Wiki.{page_types, is_reserved, get_page_by_slug}
use arkon.Wiki.Approval.{Decision, create_draft, new_page, no_overrides}
use arkon.Wiki.WellFormed.{WellFormed}
use arkon.Wiki.WellFormed.Drafts.{approve_draft-create, asked_page}
use arkon.Review.{World}
use arkon.Review.Approve.{
  ApproveDraftRequest, Outside, decision_of, approved_world, status_of, approve_draft_endpoint,
}
use arkon.Review.Proposals.{
  ProposeCreateRequest, is_proposal, is_slug, is_scope_type, create_metadata, submitted, page_draft,
  propose_create_page,
}
use arkon.Review.Proposals.Approved.{stored_draft, enqueue-Queued, submitted-loads, admin-reviews}

scope_type-solid : (t : String) → is_scope_type t ≡ true → is_blank t ≡ false
scope_type-solid t h = elim (Bool-cases (str_eq "global" t)) [
  | inl e ↦ rw (← (str_eq_iff "global" t).0 e) refl
  | inr e ↦ elim (Bool-cases (str_eq "department" t)) [
    | inl e' ↦ rw (← (str_eq_iff "department" t).0 e') refl
    | inr e' ↦ elim (Bool-cases (str_eq "project" t)) [
      | inl e'' ↦ rw (← (str_eq_iff "project" t).0 e'') refl
      | inr e'' ↦ absurd (cc (rw (e, e', e'') at h))
    ]
  ]
]

-- The page that the approval of a proposed page makes, when the reviewer changes nothing.
record Asked (body : ProposeCreateRequest) (draft : WikiPageDraft) (d : Decision) : Type 0 where
  pub slug : (asked_page draft d).slug ≡ strip body.slug
  pub title : (asked_page draft d).title ≡ strip body.title
  pub scope_type : (asked_page draft d).scope_type ≡ body.scope_type
  pub scope_id : (asked_page draft d).scope_id ≡ body.scope_id

asked_lem :
    (body : ProposeCreateRequest) (draft : WikiPageDraft) (d : Decision)
    → draft.suggested_metadata ≡ some (create_metadata body)
    → d.overrides ≡ some no_overrides
    → is_blank (strip body.slug) ≡ false
    → is_blank body.title ≡ false
    → is_blank body.scope_type ≡ false
    → Asked body draft d
unfolding new_page
asked_lem body draft d m o slug title scope = record {
  slug = rw (new_page, m, o, slug) (strip_idem body.slug);
  title = rw (new_page, m, o, title) refl;
  scope_type = rw (new_page, m, scope) refl;
  scope_id = rw (new_page, m) refl;
}

solid-strip : (s : String) → is_blank (strip s) ≡ false → is_blank s ≡ false
unfolding strip lstrip rstrip
solid-strip String.[] h = absurd (cc h)
solid-strip (String.◌∷◌ c s) h = refl

none_there : {A : Type 0} (found : Option A) → not (is_some found) ≡ true → found ≡ none
none_there none h = refl
none_there (some a) h = absurd (cc h)

-- No proposal of a new page gets through the review as it is: from a well-formed wiki, whoever proposes
-- a page with a title, the approval by any admin that comes next and changes none of its metadata is
-- answered with status 500.
pub propose_create_page-refused :
    (o : Outside) (user reviewer : Employee) (id : ℕ) (body : ProposeCreateRequest)
    (decision : ApproveDraftRequest) (w w1 : World)
    → WellFormed w.wiki
    → find (λ z. z.id == id) w.drafts ≡ none
    → is_blank (strip body.title) ≡ false
    → decision.overrides ≡ no_overrides
    → is_admin reviewer ≡ true
    → propose_create_page o.env user id body w ≡ ok w1
    → approve_draft_endpoint o reviewer decision id w1 ≡ err 500
unfolding propose_create_page create_draft submitted approve_draft_endpoint approved_world is_slug
    decision_of status_of
propose_create_page-refused o user reviewer id body decision w w1 wf fresh title unchanged admin h =
    let slug = strip body.slug in
    let draft = page_draft user id body in
    let reason = str_append "propose new page: " slug in
    let s = log_audit user "create" "wiki_draft" id (some reason) w.session in
    let (_, h1) = guard-ok (is_proposal body.content_md) 422 _ h in
    let (good, h2) = guard-ok (is_slug slug) 422 _ h1 in
    let (_, h3) = guard-ok (str_elem body.page_type page_types) 422 _ h2 in
    let (known, h4) = guard-ok (is_scope_type body.scope_type) 422 _ h3 in
    let (_, h5) =
      guard-ok
        (can_propose w.directory user
          (record { scope_type = body.scope_type; scope_id = body.scope_id }))
        403 _ h4 in
    let (free, h6) =
      guard-ok (not (is_some (get_page_by_slug slug body.scope_type body.scope_id w.wiki.pages)))
        409 _ h5 in
    let same : submitted o.env user draft reason w ≡ w1 = cc h6 in
    let x = stored_draft o.env draft s in
    let queued = enqueue-Queued o.env draft s in
    let d = decision_of o reviewer decision x in
    let kind : str_eq x.draft_kind "create" ≡ true = rw (queued.draft_kind) refl in
    let slug_ok : (is_blank slug || is_reserved slug) ≡ false = ground arith in
    let overridden : d.overrides ≡ some no_overrides = rw (kind, unchanged) refl in
    let asked =
      asked_lem body x d queued.suggested_metadata overridden (ground arith)
        (solid-strip body.title title) (scope_type-solid body.scope_type known) in
    let there = submitted-loads o.env user draft reason w fresh in
    let is_pending : same_status x.status pending ≡ true = rw (queued.status) refl in
    let can = admin-reviews (submitted o.env user draft reason w) reviewer x admin in
    let fails =
      approve_draft-create x d w.wiki wf kind (rw (asked.slug) slug_ok) (rw (asked.title) title)
        (rw (asked.slug, asked.scope_type, asked.scope_id) (none_there _ free)) in
    rw (← same)
      (rw (approve_draft_endpoint, there, is_pending, can, admin, approved_world, fails) refl)
