-- ===== src/Contribution/Approved.antt =====
-- `notify_approved` of app/services/contribution_service.py for a wiki draft: its author is told, and
-- so are the authors of the other pending drafts of the page.
use Prim.Native.String.{◌++◌ as str_append}
use arkon.Base.{
  ℕ, String, Bool, false, not, ◌&&◌, ◌||◌, Option, none, some, List, [], ◌∷◌, keep, elem, ◌==◌,
  str_eq, if◌then◌else◌,
}
use arkon.Access.{Employee}
use arkon.Notify.{Item}
use arkon.Contribution.Artifacts.{WikiPageDraft, pending, same_status, wiki_draft_adapter}
use arkon.Contribution.Effects.{Session, tell, tell_each}
use arkon.Contribution.{payload, name_of}

abbrev pub same_page : ℕ → Option ℕ → Bool
same_page page_id none = false
same_page page_id (some p) = p == page_id

-- the rows of the query for siblings
unfoldable pub siblings : WikiPageDraft → ℕ → List WikiPageDraft → List WikiPageDraft
siblings obj page_id drafts =
    keep
      (λ x. same_page page_id x.page_id && (same_status x.status pending && not (x.id == obj.id)))
      drafts

-- an author of a sibling who is to be told
abbrev pub is_new_author : ℕ → List ℕ → Option ℕ → Bool
is_new_author author_id seen none = false
is_new_author author_id seen (some a) = not (a == author_id || elem a seen)

abbrev pub add_seen : Option ℕ → List ℕ → List ℕ
add_seen none seen = seen
add_seen (some a) seen = a ∷ seen

-- the loop over the rows
unfoldable pub sibling_items : ℕ → String → String → List ℕ → List WikiPageDraft → List Item
sibling_items author_id subject body seen [] = []
sibling_items author_id subject body seen (x ∷ xs) =
    let skip = sibling_items author_id subject body seen xs in
    let told =
      record { recipient_id = x.author_id; subject = subject; body = body; target_id = x.id }
      ∷ sibling_items author_id subject body (add_seen x.author_id seen) xs in
    if is_new_author author_id seen x.author_id then told else skip

-- f" ({version_label})"
abbrev pub suffix_of : String → String
suffix_of label = if str_eq label "" then "" else str_append " (" (str_append label ")")

unfoldable pub tell_siblings :
    (ℕ → String) → Employee → String → ℕ → List WikiPageDraft → WikiPageDraft → Session → Session
tell_siblings id_text reviewer suffix author_id drafts obj s = elim obj.page_id [
  | none ↦ s
  | some page_id ↦
      let adapter = wiki_draft_adapter id_text in
      let p =
        payload adapter adapter.approved_type "Page advanced while your draft was pending: " "" obj
          reviewer in
      let body =
        str_append (name_of reviewer)
          " approved another draft on this page. Your draft will flag as conflicting on the next approve — re-base or withdraw." in
      tell_each p
        (sibling_items author_id (str_append p.subject suffix) body []
          (siblings obj page_id drafts))
        s
]

unfoldable pub notify_approved :
    (ℕ → String) → Employee → String → List WikiPageDraft → WikiPageDraft → Session → Session
notify_approved id_text reviewer version_label drafts obj s = elim obj.author_id [
  | none ↦ s
  | some author_id ↦
      let adapter = wiki_draft_adapter id_text in
      let p =
        payload adapter adapter.approved_type "Your contribution was approved: "
          (str_append "Approved by " (name_of reviewer)) obj reviewer in
      tell_siblings id_text reviewer (suffix_of version_label) author_id drafts obj
        (tell (record p { subject = str_append p.subject (suffix_of version_label) }) author_id s)
]
