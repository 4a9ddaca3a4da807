-- ===== src/Wiki/WellFormed/Drafts.antt =====
-- What the review of drafts of app/services/wiki_service.py does to a well-formed wiki.
use arkon.Base.{
  ℕ, ◌+◌, ◌≡◌, refl, Bool, true, false, not, ◌&&◌, ◌||◌, none, some, List, [], ◌∷◌, ◌++◌, ltb, ◌==◌,
  arith, Result, ok, err, ◌>>=◌, is_blank, str_eq, any-append,
}
use arkon.Contribution.Artifacts.{WikiPageDraft, approved}
use arkon.Wiki.{
  WikiPage, WikiPageRevision, WikiDb, WikiError, integrity_error, draft_conflict, is_reserved,
  get_page, or_one, add_revision, get_page_by_slug, has_revision,
}
use arkon.Wiki.Rows.{get_page-set_page}
use arkon.Wiki.Pages.{revision_of, NewPage, fresh_page}
use arkon.Wiki.Approval.{
  Decision, no_metadata, no_overrides, or_default, final_content, new_page, assert_free,
  approve_create, approve_edit, is_outdated, is_given, page_of, approve_page, approve_draft,
  reviewed,
}
use arkon.Wiki.WellFormed.{WellFormed, written, write_page-ok, apply_create-ok}

-- The page that a create draft asks for.
abbrev pub asked_page : WikiPageDraft → Decision → NewPage
asked_page draft decision =
    new_page (or_default draft.suggested_metadata no_metadata)
      (or_default decision.overrides no_overrides)
      (final_content decision.edited_content_md draft.content_md)

-- A revision that was just added is there.
has_revision-added :
    (r : WikiPageRevision) (rs : List WikiPageRevision)
    → has_revision r.page_id r.version (rs ++ r ∷ []) ≡ true
has_revision-added r rs =
    let split = any-append (λ x. x.page_id == r.page_id && x.version == r.version) rs (r ∷ []) in
    rw split (ground arith)

pub approve_create-again :
    (n : NewPage) (draft_id : ℕ) (decision : Decision) (db : WikiDb)
    → WellFormed db
    → get_page_by_slug n.slug n.scope_type n.scope_id db.pages ≡ none
    → (is_blank n.slug || is_reserved n.slug) ≡ false
    → is_blank n.title ≡ false
    → approve_create draft_id decision n db ≡ err integrity_error
unfolding approve_create assert_free add_revision
approve_create-again n draft_id decision db w free slug title =
    let r = revision_of (fresh_page db.next_id n) "agent_compile" none none none in
    rw (slug, title, free, apply_create-ok n db w, has_revision-added r db.revisions) refl

-- In a well-formed wiki the approval of a draft of a new page fails with an integrity error, whenever
-- its slug is valid and free and its title is not blank: it adds a second revision with version 1.
pub approve_draft-create :
    (draft : WikiPageDraft) (decision : Decision) (db : WikiDb)
    → WellFormed db
    → str_eq draft.draft_kind "create" ≡ true
    → (is_blank (asked_page draft decision).slug || is_reserved (asked_page draft decision).slug)
      ≡ false
    → is_blank (asked_page draft decision).title ≡ false
    → get_page_by_slug
        (asked_page draft decision).slug
        (asked_page draft decision).scope_type
        (asked_page draft decision).scope_id
        db.pages
      ≡ none
    → approve_draft draft decision db ≡ err integrity_error
unfolding approve_draft approve_page
approve_draft-create draft decision db w kind slug title free =
    rw
      (
        kind,
        approve_create-again (asked_page draft decision) draft.id decision db w free slug title,
      )
      refl

-- the second of two approvals
abbrev pub approve_after :
    WikiPageDraft
    → Decision
    → WikiPage × (WikiPageDraft × WikiDb)
    → Result WikiError (WikiPage × (WikiPageDraft × WikiDb))
approve_after draft decision (_, (_, db)) = approve_draft draft decision db

-- whether the edit branch lets a draft through
abbrev pub is_current : WikiPageDraft → Decision → WikiPage → Bool
is_current draft decision page = not (
    not decision.allow_conflict
    && (not (is_given decision.edited_content_md) && is_outdated draft.base_version page.version))

module _ (draft : WikiPageDraft) (decision : Decision) (page : WikiPage) (db : WikiDb)
    (w : WellFormed db) (kind : str_eq draft.draft_kind "create" ≡ false)
    (target : draft.page_id ≡ some page.id) (stored : get_page page.id db.pages ≡ some page) where
  -- the page and the database after the approval
  abbrev pub approved_page : WikiPage
  approved_page = record page {
    content_md = final_content decision.edited_content_md draft.content_md;
    version = or_one page.version + 1;
  }

  abbrev pub approved_db : WikiDb
  approved_db =
      written page (final_content decision.edited_content_md draft.content_md) "draft_approved"
        (some draft.id) (some decision.reviewer_id) decision.reviewer_note db

  edit_lem :
      is_current draft decision page ≡ true
      → approve_page draft decision db ≡ ok (approved_page, approved_db)
  unfolding approve_page approve_edit page_of
  edit_lem fresh =
      let open_door : (not decision.allow_conflict
            && (not (is_given decision.edited_content_md)
                && is_outdated draft.base_version page.version))
          ≡ false =
        ground arith in
      rw (kind, target, stored, open_door)
        (write_page-ok page (final_content decision.edited_content_md draft.content_md)
          "draft_approved" (some draft.id) (some decision.reviewer_id) decision.reviewer_note db w
          page refl stored)

  -- In a well-formed wiki the approval of an edit draft of a stored page goes through if the draft's
  -- base is no older than the page, the reviewer allows the conflict or the reviewer edits the
  -- content: the page gets the final content and the next version, and the draft is approved.
  pub approve_draft-edit :
      is_current draft decision page ≡ true
      → approve_draft draft decision db
        ≡ ok (
          approved_page,
          (
            reviewed approved decision.reviewer_id decision.reviewer_note decision.now draft,
            approved_db,
          ),
        )
  unfolding approve_draft
  approve_draft-edit fresh = rw (edit_lem fresh, kind) refl

  -- In a well-formed wiki, after the approval of one edit draft of a stored page, another edit draft
  -- of that page, whose base_version is the version before the approval, is refused with a conflict
  -- that names both versions, unless its reviewer allows the conflict or edits the content. A draft
  -- without a base_version is not covered.
  pub approve_draft-conflict :
      is_current draft decision page ≡ true
      → (draft2 : WikiPageDraft) → (decision2 : Decision)
      → str_eq draft2.draft_kind "create" ≡ false
      → draft2.page_id ≡ some page.id
      → draft2.base_version ≡ some page.version
      → decision2.allow_conflict ≡ false
      → decision2.edited_content_md ≡ none
      → (approve_draft draft decision db >>= approve_after draft2 decision2)
        ≡ err (draft_conflict (or_one page.version + 1) page.version)
  unfolding approve_draft approve_page approve_edit page_of
  approve_draft-conflict fresh draft2 decision2 kind2 target2 base strict unedited =
      let found : get_page page.id approved_db.pages ≡ some approved_page =
        get_page-set_page approved_page db.pages page stored in
      let late : ltb page.version (or_one page.version + 1) ≡ true = ground arith in
      rw (approve_draft-edit fresh, kind2, target2, base, strict, unedited, found, late) refl
