-- ===== src/Review/Proposals.antt =====
-- The endpoints of app/routers/wiki_drafts.py that propose an edit or a new page. The id of the new draft
-- is drawn by the database; an invalid body is status 422.
pub mod Approved
pub mod Refused
use Prim.Native.String.{count, ◌++◌ as str_append}
use arkon.Base.{
  ℕ, String, Bool, true, false, not, ◌&&◌, ◌||◌, Option, none, some, List, [], ◌∷◌, ◌++◌, find, leb,
  ltb, str_eq, str_elem, if◌then◌else◌, Result, ok, err, ◌>>=◌, ◌>>◌, guard, strip, is_blank,
  is_space,
}
use arkon.Access.{Employee, is_some}
use arkon.Reviewers.{Scope, can_propose}
use arkon.Contribution.Artifacts.{Metadata, WikiPageDraft}
use arkon.Contribution.Effects.{Env, Session, log_audit}
use arkon.Contribution.{notify_submitted_draft}
use arkon.Wiki.{WikiPage, page_types, is_reserved, get_page_by_slug}
use arkon.Wiki.Approval.{Proposal, create_draft}
use arkon.Review.{World, scope_of, with_page, is_content}

-- ProposeDraftRequest
pub record ProposeDraftRequest : Type 0 where
  pub content_md : String
  pub note : Option String
  pub base_version : Option ℕ
  pub scope_type : Option String
  pub scope_id : Option ℕ

-- `not_empty` of the two requests for proposals, which does not strip
abbrev pub is_proposal : String → Bool
is_proposal s = not (is_blank (strip s)) && leb (count s) 50000

-- `get_page_by_slug`, or `get_page_by_slug_any_scope` if no scope is given
unfoldable pub proposed_page : String → ProposeDraftRequest → List WikiPage → Option WikiPage
proposed_page slug body pages = elim body.scope_type [
  | some scope_type ↦ get_page_by_slug slug scope_type body.scope_id pages
  | none ↦ find (λ p. str_eq p.slug slug) pages
]

abbrev pub version_or : Option ℕ → ℕ → ℕ
version_or none version = version
version_or (some base) version = base

-- the new draft with the effects of its submission
unfoldable pub submitted : Env → Employee → WikiPageDraft → String → World → World
submitted env user draft reason w =
    let done =
      notify_submitted_draft env w.directory user draft
        (log_audit user "create" "wiki_draft" draft.id (some reason) w.session) in
    record w { drafts = w.drafts ++ done.0 ∷ []; session = done.1 }

-- the draft of an edit
abbrev pub edit_draft : Employee → ℕ → ProposeDraftRequest → WikiPage → WikiPageDraft
edit_draft user id body page = with_page (some page) (
    create_draft id (record {
      page_id = some page.id;
      author_id = user.id;
      content_md = body.content_md;
      note = body.note;
      base_version = some (version_or body.base_version page.version);
      draft_kind = "edit";
      suggested_metadata = none;
    }))

-- `propose_draft` once the page is found
unfoldable pub propose_on :
    Env → Employee → ℕ → String → ProposeDraftRequest → Option WikiPage → World → Result ℕ World
propose_on env user id slug body none w = err 404
propose_on env user id slug body (some page) w = do
  guard (can_propose w.directory user (scope_of page)) 403
  guard (not (ltb page.version (version_or body.base_version page.version))) 400
  ok (submitted env user (edit_draft user id body page) (str_append "draft for: " slug) w)

unfoldable pub propose_draft :
    Env → Employee → ℕ → String → ProposeDraftRequest → World → Result ℕ World
propose_draft env user id slug body w = do
  guard (is_proposal body.content_md) 422
  guard (not (is_reserved slug)) 400
  propose_on env user id slug body (proposed_page slug body w.wiki.pages) w

-- ProposeCreateRequest
pub record ProposeCreateRequest : Type 0 where
  pub slug : String
  pub title : String
  pub page_type : String
  pub knowledge_type_slugs : List String
  pub scope_type : String
  pub scope_id : Option ℕ
  pub content_md : String
  pub note : Option String

-- `any(c.isspace() for c in v)`
unfoldable pub has_space : String → Bool
has_space String.[] = false
has_space (String.◌∷◌ c s) = is_space c || has_space s

-- `slug_format`, of the slug without the space around it
unfoldable pub is_slug : String → Bool
is_slug slug = not (is_blank slug || is_reserved slug) && not (has_space slug)

-- `scope_known`
abbrev pub is_scope_type : String → Bool
is_scope_type t = str_elem t ("global" ∷ "department" ∷ "project" ∷ [])

abbrev pub create_metadata : ProposeCreateRequest → Metadata
create_metadata body = record {
  slug = some (strip body.slug);
  title = some body.title;
  page_type = some body.page_type;
  knowledge_type_slugs = some body.knowledge_type_slugs;
  scope_type = some body.scope_type;
  scope_id = body.scope_id;
}

-- the draft of a new page
abbrev pub page_draft : Employee → ℕ → ProposeCreateRequest → WikiPageDraft
page_draft user id body = create_draft id (record {
  page_id = none;
  author_id = user.id;
  content_md = body.content_md;
  note = body.note;
  base_version = none;
  draft_kind = "create";
  suggested_metadata = some (create_metadata body);
})

-- `propose_create_page`; its check of the permission is that of `_can_propose` on the scope
unfoldable pub propose_create_page :
    Env → Employee → ℕ → ProposeCreateRequest → World → Result ℕ World
propose_create_page env user id body w = do
  guard (is_proposal body.content_md) 422
  guard (is_slug (strip body.slug)) 422
  guard (str_elem body.page_type page_types) 422
  guard (is_scope_type body.scope_type) 422
  guard
      (can_propose w.directory user
        (record { scope_type = body.scope_type; scope_id = body.scope_id }))
      403
  guard
      (not
        (is_some (get_page_by_slug (strip body.slug) body.scope_type body.scope_id w.wiki.pages)))
      409
  ok (
      submitted env user (page_draft user id body)
        (str_append "propose new page: " (strip body.slug)) w)
