-- ===== src/Review/Examples.antt =====
-- The theorem on the endpoints for a draft that an admin rejects.
use arkon.Base.{is_blank, false}
use arkon.Reviewers.{can_propose}
use arkon.Wiki.{get_page_by_slug, scope_filter}
use arkon.Review.Proposals.{
  ProposeDraftRequest, ProposeCreateRequest, submitted, edit_draft, page_draft, propose_draft,
  propose_on, proposed_page, propose_create_page, is_slug, has_space,
}
use arkon.Review.Proposals.Approved.{propose_draft-approve}
use arkon.Review.Proposals.Refused.{propose_create_page-refused}
use arkon.Base.{ℕ, ◌+◌, ◌==◌, find}
use arkon.Review.Bulk.{BulkApproveRequest, bulk_approve_drafts}
use arkon.Review.Bulk.Moves.{Moved, bulk_approve_drafts-moves}
use arkon.Base.{◌≡◌, refl, true, none, some, [], ◌∷◌, ok, err, strip, lstrip, rstrip, is_space}
use arkon.Samples.{admin, directory, draft}
use arkon.Contribution.Artifacts.{WikiPageDraft, rejected, wiki_draft_adapter}
use arkon.Contribution.Effects.{Env, log_audit}
use arkon.Contribution.{notify_rejected, withdraw, assert_status}
use arkon.Wiki.Approval.{page_of, reject_draft}
use arkon.Wiki.{get_page}
use arkon.Review.{
  World, can_review_draft, can_review_page, load_draft, with_page, put_draft, commit, slug_label,
  reject_draft_endpoint, reject, take_back, perform, withdraw_draft, committed,
}
use arkon.Base.{false, ◌||◌, not}
use arkon.Access.{is_admin}
use arkon.Samples.{home_page, first, first-WellFormed, home_stored}
use arkon.Contribution.Artifacts.{pending, approved, same_status}
use arkon.Reviewers.{can_review_scope}
use arkon.Wiki.Links.{refresh_links}
use arkon.Wiki.Approval.{Decision, no_overrides, reviewed}
use arkon.Wiki.WellFormed.{WellFormed}
use arkon.Wiki.WellFormed.Drafts.{approve_draft-edit, approved_page, approved_db}
use arkon.Review.Approve.{
  ApproveDraftRequest, Outside, is_own, decision_of, finish, approved_world, approve_draft_endpoint,
}
use arkon.Review.Approval.{IsPublished, approve_draft_endpoint-may}
use arkon.Review.Authority.{may, starts, perform-may}
use arkon.Review.Stored.{status_at}

abbrev env : Env
env = record { ai_pre_review_enabled = none; queue_up = true; now = 50; id_text = λ n. "id" }

abbrev world : World
world = record {
  directory = directory;
  wiki = record { pages = []; links = []; revisions = []; next_id = 0 };
  drafts = draft ∷ [];
  session = record {
    key = 1;
    outbox = record { rows = []; request_staged = none; session_staged = [] };
    audits = [];
    rounds = [];
    jobs = [];
  };
}

abbrev rejected_draft : WikiPageDraft
rejected_draft = record draft {
  status = rejected;
  reviewed_by_id = some 1;
  reviewed_at = some 50;
  reviewer_note = some "no";
}

abbrev rejected_world : World
rejected_world = record world {
  drafts = rejected_draft ∷ [];
  session = notify_rejected (wiki_draft_adapter (λ n. "id")) admin (some "no") rejected_draft (
      log_audit admin "update" "wiki_draft" 20 (some "rejected draft for: (unknown)")
        world.session);
}

rejection : perform env admin (reject "no") 20 world ≡ ok rejected_world
unfolding perform reject_draft_endpoint load_draft can_review_draft can_review_page page_of get_page
    with_page reject_draft slug_label commit put_draft strip lstrip rstrip is_space
rejection = refl

perform-may_example :
    (may world admin draft (reject "no") ≡ true)
    × (starts (reject "no") draft.status ≡ true)
    × (status_at 20 rejected_world ≡ some rejected)
unfolding load_draft
perform-may_example =
    perform-may env admin 20 world rejected_world draft refl (reject "no") rejection

-- a draft that was rejected can no longer be withdrawn, not even by an admin
no_withdrawal : perform env admin take_back 20 rejected_world ≡ err 403
unfolding perform withdraw_draft load_draft committed page_of get_page with_page withdraw
    assert_status
no_withdrawal = refl

-- the draft's page is stored
abbrev with_home : World
with_home = record world { wiki = first }

abbrev body : ApproveDraftRequest
body = record {
  reviewer_note = none;
  edited_content_md = none;
  allow_conflict = false;
  overrides = no_overrides;
}

abbrev outside : Outside
outside = record { env = env; ordered = λ ps. ps; ts = "2026-01-01 10:00" }

abbrev decision : Decision
decision = record {
  reviewer_id = 1;
  reviewer_note = none;
  edited_content_md = none;
  allow_conflict = false;
  overrides = none;
  now = 50;
}

abbrev after_approval : World
after_approval =
    finish outside admin with_home
      (approved_page draft decision home_page first first-WellFormed refl refl home_stored)
      (reviewed approved 1 none 50 draft)
      (approved_db draft decision home_page first first-WellFormed refl refl home_stored)

approval : approve_draft_endpoint outside admin body 20 with_home ≡ ok after_approval
unfolding approve_draft_endpoint load_draft can_review_draft can_review_page can_review_scope
    page_of get_page decision_of approved_world refresh_links
approval =
    rw
      (approve_draft-edit draft decision home_page first first-WellFormed refl refl home_stored
        refl)
      refl

approve_draft_endpoint-may_example :
    (same_status draft.status pending ≡ true)
    × (can_review_draft with_home admin draft ≡ true)
    × ((is_admin admin || not (is_own (some 5) admin)) ≡ true)
    × (status_at 20 after_approval ≡ some approved)
    × WellFormed after_approval.wiki
    × IsPublished outside admin body draft with_home after_approval
unfolding load_draft
approve_draft_endpoint-may_example =
    approve_draft_endpoint-may outside admin body 20 with_home after_approval draft first-WellFormed
      refl approval

abbrev two_ids : BulkApproveRequest
two_ids = record { draft_ids = 20 ∷ 99 ∷ []; allow_conflict = false; reviewer_note = none }

bulk_approve_drafts-moves_example :
    WellFormed (bulk_approve_drafts outside admin two_ids with_home).1.wiki
    × ((id : ℕ) (x : WikiPageDraft)
        → find (λ z. z.id == id) with_home.drafts ≡ some x
        → (x' : WikiPageDraft) × (find
              (λ z. z.id == id)
              (bulk_approve_drafts outside admin two_ids with_home).1.drafts
            ≡ some x')
          × Moved admin x x')
    × ((bulk_approve_drafts outside admin two_ids with_home).0.approved
          + (bulk_approve_drafts outside admin two_ids with_home).0.skipped
          + (bulk_approve_drafts outside admin two_ids with_home).0.errored
        ≡ 2)
bulk_approve_drafts-moves_example =
    bulk_approve_drafts-moves outside admin two_ids with_home first-WellFormed

abbrev edit_request : ProposeDraftRequest
edit_request = record {
  content_md = "better";
  note = none;
  base_version = none;
  scope_type = some "global";
  scope_id = none;
}

abbrev proposed : World
proposed =
    submitted env admin (edit_draft admin 30 edit_request home_page) "draft for: home" with_home

edit_proposed : propose_draft env admin 30 "home" edit_request with_home ≡ ok proposed
unfolding propose_draft propose_on proposed_page get_page_by_slug scope_filter can_propose strip
    lstrip rstrip is_space refresh_links
edit_proposed = refl

propose_draft-approve_example :
    (w2 : World) × (approve_draft_endpoint outside admin body 30 proposed ≡ ok w2)
propose_draft-approve_example =
    propose_draft-approve outside admin admin 30 "home" edit_request body with_home proposed
      first-WellFormed refl refl refl edit_proposed

abbrev new_request : ProposeCreateRequest
new_request = record {
  slug = " about ";
  title = "About";
  page_type = "concept";
  knowledge_type_slugs = [];
  scope_type = "global";
  scope_id = none;
  content_md = "text";
  note = none;
}

abbrev proposed_new : World
proposed_new =
    submitted env admin (page_draft admin 30 new_request) "propose new page: about" with_home

page_proposed : propose_create_page env admin 30 new_request with_home ≡ ok proposed_new
unfolding propose_create_page get_page_by_slug scope_filter can_propose is_slug has_space strip
    lstrip rstrip is_space refresh_links
page_proposed = refl

title_there : is_blank (strip "About") ≡ false
unfolding strip lstrip rstrip is_space
title_there = refl

propose_create_page-refused_example :
    approve_draft_endpoint outside admin body 30 proposed_new ≡ err 500
propose_create_page-refused_example =
    propose_create_page-refused outside admin admin 30 new_request body with_home proposed_new
      first-WellFormed refl title_there refl refl page_proposed
