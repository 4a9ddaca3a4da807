-- ===== src/Wiki/Approval.antt =====
-- Drafts of wiki pages: `create_draft`, `approve_draft` and `reject_draft` of
-- app/services/wiki_service.py. The drafts are those of Contribution/Artifacts.
use arkon.Base.{
  ℕ, String, Bool, true, false, not, ◌&&◌, ◌||◌, Option, none, some, List, [], ltb, str_eq,
  if◌then◌else◌, Result, ok, err, ◌>>=◌, ◌>>◌, guard, strip, is_blank, text_or_empty, is_missing,
}
use arkon.Contribution.Artifacts.{Status, pending, approved, rejected, Metadata, WikiPageDraft}
use arkon.Wiki.{
  WikiPage, WikiDb, WikiError, draft_conflict, slug_conflict, value_error, is_reserved, get_page,
  get_page_by_slug, add_revision,
}
use arkon.Wiki.Pages.{NewPage, revision_of, apply_create, write_page}

-- the arguments `page_id` to `suggested_metadata` of `create_draft`
pub record Proposal : Type 0 where
  pub page_id : Option ℕ
  pub author_id : ℕ
  pub content_md : String
  pub note : Option String
  pub base_version : Option ℕ
  pub draft_kind : String
  pub suggested_metadata : Option Metadata

-- `create_draft`, with the new draft's id
unfoldable pub create_draft : ℕ → Proposal → WikiPageDraft
create_draft id p = record {
  id = id;
  page_id = p.page_id;
  page = none;
  draft_kind = p.draft_kind;
  suggested_metadata = p.suggested_metadata;
  author_id = some p.author_id;
  content_md = p.content_md;
  note = p.note;
  base_version = p.base_version;
  revision_round = 0;
  last_returned_note = none;
  ai_check_status = "pending";
  ai_check_results = none;
  ai_checked_at = none;
  status = pending;
  reviewed_by_id = none;
  reviewed_at = none;
  reviewer_note = none;
}

-- `metadata_overrides`
pub record Overrides : Type 0 where
  pub final_slug : Option String
  pub final_title : Option String
  pub final_page_type : Option String
  pub final_knowledge_type_slugs : Option (List String)

-- What a reviewer decides: the arguments of `approve_draft`, and the clock.
pub record Decision : Type 0 where
  pub reviewer_id : ℕ
  pub reviewer_note : Option String
  pub edited_content_md : Option String
  pub allow_conflict : Bool
  pub overrides : Option Overrides
  pub now : ℕ

abbrev pub no_metadata : Metadata
no_metadata = record {
  slug = none;
  title = none;
  page_type = none;
  knowledge_type_slugs = none;
  scope_type = none;
  scope_id = none;
}

abbrev pub no_overrides : Overrides
no_overrides = record {
  final_slug = none;
  final_title = none;
  final_page_type = none;
  final_knowledge_type_slugs = none;
}

-- `x or default`
abbrev pub or_default {ℓ} : {A : Type ℓ} → Option A → A → A
or_default none d = d
or_default (some x) d = x

-- `a or b or c` on texts
abbrev pub first_text : Option String → Option String → String → String
first_text a b c =
    if is_missing a then (if is_missing b then c else text_or_empty b) else text_or_empty a

-- `list(kt_slugs)`
abbrev pub final_slugs : Option (List String) → Option (List String) → List String
final_slugs (some chosen) proposed = chosen
final_slugs none proposed = or_default proposed []

-- `edited_content_md.strip() if edited_content_md else draft.content_md`
unfoldable pub final_content : Option String → String → String
final_content edited own = if is_missing edited then own else strip (text_or_empty edited)

-- The page that a create draft asks for, as the reviewer changed it.
unfoldable pub new_page : Metadata → Overrides → String → NewPage
new_page meta overrides content = record {
  slug = strip (first_text overrides.final_slug meta.slug "");
  title = strip (first_text overrides.final_title meta.title "");
  page_type = first_text overrides.final_page_type meta.page_type "concept";
  content_md = content;
  summary = "";
  knowledge_type_slugs = final_slugs overrides.final_knowledge_type_slugs meta.knowledge_type_slugs;
  source_ids = [];
  scope_type = first_text meta.scope_type none "global";
  scope_id = meta.scope_id;
}

-- `if existing is not None: raise CreateDraftSlugConflict`
unfoldable pub assert_free : NewPage → Option WikiPage → Result WikiError (Unit {0})
assert_free n none = ok tt
assert_free n (some existing) = err (slug_conflict n.slug n.scope_type n.scope_id)

-- The branch of a create draft.
unfoldable pub approve_create :
    ℕ → Decision → NewPage → WikiDb → Result WikiError (WikiPage × WikiDb)
approve_create draft_id decision n db = do
  guard (not (is_blank n.slug || is_reserved n.slug)) (value_error "invalid slug")
  guard (not (is_blank n.title)) (value_error "title required")
  assert_free n (get_page_by_slug n.slug n.scope_type n.scope_id db.pages)
  (page, db') ← apply_create n db
  db'' ←
      add_revision
        (revision_of page "draft_approved_create" (some draft_id) (some decision.reviewer_id)
          decision.reviewer_note)
        db'
  ok (page, db'')

-- `draft.base_version is not None and draft.base_version < page.version`
abbrev pub is_outdated : Option ℕ → ℕ → Bool
is_outdated none version = false
is_outdated (some base) version = ltb base version

abbrev pub is_given {ℓ} : {A : Type ℓ} → Option A → Bool
is_given none = false
is_given (some _) = true

-- The branch of an edit draft, with the page that `session.get` found.
unfoldable pub approve_edit :
    WikiPageDraft → Decision → Option WikiPage → WikiDb → Result WikiError (WikiPage × WikiDb)
approve_edit draft decision none db = err (value_error "page not found")
approve_edit draft decision (some page) db =
    if not decision.allow_conflict
      && (not (is_given decision.edited_content_md) && is_outdated draft.base_version page.version)
    then err (draft_conflict page.version (or_default draft.base_version 0))
    else write_page page (final_content decision.edited_content_md draft.content_md)
        "draft_approved" (some draft.id) (some decision.reviewer_id) decision.reviewer_note db

-- `session.get(WikiPage, draft.page_id) if draft.page_id else None`
unfoldable pub page_of : Option ℕ → WikiDb → Option WikiPage
page_of none db = none
page_of (some page_id) db = get_page page_id db.pages

-- the draft's fields after a review
abbrev pub reviewed : Status → ℕ → Option String → ℕ → WikiPageDraft → WikiPageDraft
reviewed status reviewer_id comment now draft = record draft {
  status = status;
  reviewed_by_id = some reviewer_id;
  reviewed_at = some now;
  reviewer_note = comment;
}

unfoldable pub approve_page :
    WikiPageDraft → Decision → WikiDb → Result WikiError (WikiPage × WikiDb)
approve_page draft decision db =
    if str_eq draft.draft_kind "create"
    then approve_create draft.id decision
        (new_page (or_default draft.suggested_metadata no_metadata)
          (or_default decision.overrides no_overrides)
          (final_content decision.edited_content_md draft.content_md))
        db
    else approve_edit draft decision (page_of draft.page_id db) db

-- `approve_draft`; the draft of a new page is given its id
unfoldable pub approve_draft :
    WikiPageDraft → Decision → WikiDb → Result WikiError (WikiPage × (WikiPageDraft × WikiDb))
approve_draft draft decision db = do
  (page, db') ← approve_page draft decision db
  let page_id = if str_eq draft.draft_kind "create" then some page.id else draft.page_id
  ok (
    page,
    (
      reviewed approved decision.reviewer_id decision.reviewer_note decision.now
          (record draft { page_id = page_id }),
      db',
    ),
  )

unfoldable pub reject_draft : ℕ → String → ℕ → WikiPageDraft → WikiPageDraft
reject_draft reviewer_id comment now draft = reviewed rejected reviewer_id (some comment) now draft
