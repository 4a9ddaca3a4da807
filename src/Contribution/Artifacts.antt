-- ===== src/Contribution/Artifacts.antt =====
-- The two artifacts of a contribution and their adapters (app/services/contribution_service.py over
-- WikiPageDraft and SkillContribution of app/database/models.py).
use arkon.Base.{
  ℕ, ◌+◌, String, ◌≡◌, refl, Bool, true, false, Option, none, some, List, if◌then◌else◌, str_eq,
}
use Prim.Native.String.{◌++◌ as str_append}
use arkon.Reviewers.{Scope, Directory, get_reviewers_for_scope, get_global_reviewers}

-- SkillContributionStatus; a wiki draft has all of them but `in_draft` (WIKI_DRAFT_STATUSES).
pub data Status : Type 0 where
  in_draft pending needs_revision withdrawn approved rejected : Status

pub Status-discrete : Discrete Status
Status-discrete = hlevel

abbrev pub same_status : Status → Status → Bool
same_status in_draft in_draft = true
same_status pending pending = true
same_status needs_revision needs_revision = true
same_status withdrawn withdrawn = true
same_status approved approved = true
same_status rejected rejected = true
same_status _ _ = false

-- What the draft's `page` relation gives.
pub record PageRef : Type 0 where
  pub title : String
  pub slug : String
  pub scope : Scope

-- `suggested_metadata` of a create draft
pub record Metadata : Type 0 where
  pub slug : Option String
  pub title : Option String
  pub page_type : Option String
  pub knowledge_type_slugs : Option (List String)
  pub scope_type : Option String
  pub scope_id : Option ℕ

pub record WikiPageDraft : Type 0 where
  pub id : ℕ
  pub page_id : Option ℕ
  pub page : Option PageRef
  pub draft_kind : String
  pub suggested_metadata : Option Metadata
  pub author_id : Option ℕ
  pub content_md : String
  pub note : Option String
  pub base_version : Option ℕ
  pub revision_round : ℕ
  pub last_returned_note : Option String
  pub ai_check_status : String
  pub ai_check_results : Option String
  pub ai_checked_at : Option ℕ
  pub status : Status
  pub reviewed_by_id : Option ℕ
  pub reviewed_at : Option ℕ
  pub reviewer_note : Option String

pub record SkillContribution : Type 0 where
  pub id : ℕ
  pub contributor_id : ℕ
  pub title : String
  pub status : Status
  pub revision_round : ℕ
  pub last_returned_note : Option String

-- The protocol `ContributionAdapter`, with the notification types of its `_TypeBundle`.
pub record Adapter (A : Type 0) : Type 0 where
  pub artifact_type : String
  pub id : A → ℕ
  pub status : A → Status
  pub set_status : A → Status → A
  pub author_id : A → Option ℕ
  pub display_name : A → String
  pub revision_round : A → ℕ
  pub bump_revision_round : A → A
  pub set_returned_note : A → Option String → A
  pub reviewers : Directory → A → List ℕ
  pub submitted_type : String
  pub resubmitted_type : String
  pub approved_type : String
  pub rejected_type : String
  pub changes_requested_type : String
  pub withdrawn_type : String

-- What the operations rely on: reading what was written, and that writes keep the rest.
pub record IsAdapter {A : Type 0} (a : Adapter A) : Type 0 where
  pub status-set_status : (x : A) (s : Status) → a.status (a.set_status x s) ≡ s
  pub status-set_returned_note :
      (x : A) (n : Option String) → a.status (a.set_returned_note x n) ≡ a.status x
  pub author_id-set_status : (x : A) (s : Status) → a.author_id (a.set_status x s) ≡ a.author_id x
  pub author_id-set_returned_note :
      (x : A) (n : Option String) → a.author_id (a.set_returned_note x n) ≡ a.author_id x
  pub revision_round-set_status :
      (x : A) (s : Status) → a.revision_round (a.set_status x s) ≡ a.revision_round x
  pub revision_round-set_returned_note :
      (x : A) (n : Option String) → a.revision_round (a.set_returned_note x n) ≡ a.revision_round x
  pub revision_round-bump :
      (x : A) → a.revision_round (a.bump_revision_round x) ≡ a.revision_round x + 1
  pub status-bump : (x : A) → a.status (a.bump_revision_round x) ≡ a.status x

-- `f"{page.title} ({page.slug})"`, or `f"draft {obj.id}"` by the text of an id
unfoldable pub draft_name : (ℕ → String) → WikiPageDraft → String
draft_name id_text x = elim x.page [
  | none ↦ str_append "draft " (id_text x.id)
  | some p ↦ str_append p.title (str_append " (" (str_append p.slug ")"))
]

-- `page.scope_type or "global"`
abbrev pub scope_or_global : Scope → Scope
scope_or_global s = record s {
  scope_type = if str_eq s.scope_type "" then "global" else s.scope_type;
}

unfoldable pub draft_reviewers : Directory → Option PageRef → List ℕ
draft_reviewers d none = get_global_reviewers d
draft_reviewers d (some p) = get_reviewers_for_scope d (scope_or_global p.scope)

-- WikiDraftAdapter
abbrev pub wiki_draft_adapter : (ℕ → String) → Adapter WikiPageDraft
wiki_draft_adapter id_text = record {
  artifact_type = "wiki_draft";
  id = λ x. x.id;
  status = λ x. x.status;
  set_status = λ x s. record x { status = s };
  author_id = λ x. x.author_id;
  display_name = draft_name id_text;
  revision_round = λ x. x.revision_round;
  bump_revision_round = λ x. record x { revision_round = x.revision_round + 1 };
  set_returned_note = λ x n. record x { last_returned_note = n };
  reviewers = λ d x. draft_reviewers d x.page;
  submitted_type = "wiki_draft.submitted";
  resubmitted_type = "wiki_draft.resubmitted";
  approved_type = "wiki_draft.approved";
  rejected_type = "wiki_draft.rejected";
  changes_requested_type = "wiki_draft.changes_requested";
  withdrawn_type = "wiki_draft.withdrawn";
}

-- SkillContributionAdapter
abbrev pub skill_contribution_adapter : Adapter SkillContribution
skill_contribution_adapter = record {
  artifact_type = "skill_contribution";
  id = λ x. x.id;
  status = λ x. x.status;
  set_status = λ x s. record x { status = s };
  author_id = λ x. some x.contributor_id;
  display_name = λ x. x.title;
  revision_round = λ x. x.revision_round;
  bump_revision_round = λ x. record x { revision_round = x.revision_round + 1 };
  set_returned_note = λ x n. record x { last_returned_note = n };
  reviewers = λ d x. get_global_reviewers d;
  submitted_type = "skill_contribution.submitted";
  resubmitted_type = "skill_contribution.resubmitted";
  approved_type = "skill_contribution.approved";
  rejected_type = "skill_contribution.rejected";
  changes_requested_type = "skill_contribution.changes_requested";
  withdrawn_type = "skill_contribution.withdrawn";
}

-- Both implementations keep what the operations rely on.
pub wiki_draft_adapter-IsAdapter : (id_text : ℕ → String) → IsAdapter (wiki_draft_adapter id_text)
wiki_draft_adapter-IsAdapter id_text = record {
  status-set_status = λ x s. refl;
  status-set_returned_note = λ x n. refl;
  author_id-set_status = λ x s. refl;
  author_id-set_returned_note = λ x n. refl;
  revision_round-set_status = λ x s. refl;
  revision_round-set_returned_note = λ x n. refl;
  revision_round-bump = λ x. refl;
  status-bump = λ x. refl;
}

pub skill_contribution_adapter-IsAdapter : IsAdapter skill_contribution_adapter
skill_contribution_adapter-IsAdapter = record {
  status-set_status = λ x s. refl;
  status-set_returned_note = λ x n. refl;
  author_id-set_status = λ x s. refl;
  author_id-set_returned_note = λ x n. refl;
  revision_round-set_status = λ x s. refl;
  revision_round-set_returned_note = λ x n. refl;
  revision_round-bump = λ x. refl;
  status-bump = λ x. refl;
}
