-- ===== src/Contribution/Transitions.antt =====
-- The transitions of a contribution, for every artifact with an adapter.
use arkon.Base.{
  String, ◌≡◌, Bool, true, false, not, ◌&&◌, ◌⊎◌, Option, some, arith, if◌then◌else◌, ok, err,
  strip, is_blank, text_or_empty,
}
use arkon.Access.{Employee, is_admin}
use arkon.Reviewers.{Directory}
use arkon.Contribution.Artifacts.{
  Status, pending, needs_revision, withdrawn, approved, rejected, Adapter, IsAdapter,
}
use arkon.Contribution.Effects.{Session}
use arkon.Contribution.{
  note_required, bad_status, is_stranger, assert_status, request_changes, withdraw,
}

-- No operation leads out of these.
abbrev pub is_terminal : Status → Bool
is_terminal withdrawn = true
is_terminal approved = true
is_terminal rejected = true
is_terminal _ = false

module _ {A : Type 0} (adapter : Adapter A) (laws : IsAdapter adapter) where
  -- A request for changes succeeds only on a pending artifact and with a note that is not blank; it
  -- leaves the artifact in needs_revision, with its author and its round.
  pub request_changes_lem :
      (reviewer : Employee) (comment : Option String) (obj : A) (s : Session) {obj' : A}
      {s' : Session}
      → request_changes adapter reviewer comment obj s ≡ ok (obj', s')
      → (adapter.status obj ≡ pending)
        × (is_blank (strip (text_or_empty comment)) ≡ false)
        × (adapter.status obj' ≡ needs_revision)
        × (adapter.author_id obj' ≡ adapter.author_id obj)
        × (adapter.revision_round obj' ≡ adapter.revision_round obj)
  unfolding request_changes assert_status
  request_changes_lem reviewer comment obj s h =
      let text = some (strip (text_or_empty comment)) in
      let returned = adapter.set_status obj needs_revision in
      ground (
        arith,
        laws.status-set_returned_note returned text,
        laws.status-set_status obj needs_revision,
        laws.author_id-set_returned_note returned text,
        laws.author_id-set_status obj needs_revision,
        laws.revision_round-set_returned_note returned text,
        laws.revision_round-set_status obj needs_revision,
      )

  -- A withdrawal succeeds only on a pending or returned artifact, and only for its author, for an
  -- admin, or where no author is recorded; it leaves the artifact in withdrawn, with its round.
  pub withdraw_lem :
      (d : Directory) (author : Employee) (obj : A) (s : Session) {obj' : A} {s' : Session}
      → withdraw adapter d author obj s ≡ ok (obj', s')
      → ((adapter.status obj ≡ pending) ⊎ (adapter.status obj ≡ needs_revision))
        × ((is_stranger (adapter.author_id obj) author && not (is_admin author)) ≡ false)
        × (adapter.status obj' ≡ withdrawn)
        × (adapter.revision_round obj' ≡ adapter.revision_round obj)
  unfolding withdraw assert_status
  withdraw_lem d author obj s h =
      ground
        (arith, laws.status-set_status obj withdrawn, laws.revision_round-set_status obj withdrawn)

  -- On an artifact that is withdrawn, approved or rejected a request for changes and a withdrawal
  -- raise: the first for its note if that is blank, both otherwise for the status.
  pub terminal_raises :
      (d : Directory) (user : Employee) (comment : Option String) (obj : A) (s : Session)
      → is_terminal (adapter.status obj) ≡ true
      → (request_changes adapter user comment obj s
          ≡ err (if is_blank (strip (text_or_empty comment)) then note_required else bad_status))
        × (withdraw adapter d user obj s ≡ err bad_status)
  unfolding request_changes withdraw assert_status
  terminal_raises d user comment obj s h = ground arith
