-- ===== src/Reviewers/Examples.antt =====
-- The theorems on reviewers in a small directory.
use mathlib.Core.List.{Memᴰ}
use arkon.Base.{◌≡◌, refl, true, false, some, elem}
use arkon.Samples.{worker, writer, directory}
use arkon.Access.{
  get_user_permissions, role_permissions, get_workspace_role, workspace_role_can, parse_role,
  member_role,
}
use arkon.Reviewers.{
  Scope, get_reviewers_for_scope, can_review_scope, reviewable_page_filter, role_can,
  grants_write_all,
}
use arkon.Reviewers.Told.{can_review-told}
use arkon.Reviewers.Queue.{write_all_gap}

abbrev workspace : Scope
workspace = record { scope_type = "project"; scope_id = some 9 }

worker_can_review : can_review_scope directory worker workspace ≡ true
unfolding can_review_scope get_user_permissions role_permissions role_can get_workspace_role
    member_role workspace_role_can parse_role
worker_can_review = refl

can_review-told_example : elem 2 (get_reviewers_for_scope directory workspace) ≡ true
can_review-told_example =
    can_review-told directory (Memᴰ.tail (Memᴰ.head refl)) workspace worker_can_review

write_all_gap_example :
    (can_review_scope directory writer workspace ≡ false)
    × (elem 3 (get_reviewers_for_scope directory workspace) ≡ true)
    × (reviewable_page_filter directory writer workspace ≡ true)
unfolding grants_write_all member_role
write_all_gap_example =
    write_all_gap directory 9 (Memᴰ.tail (Memᴰ.tail (Memᴰ.head refl))) refl refl refl
