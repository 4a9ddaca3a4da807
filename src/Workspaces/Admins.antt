-- ===== src/Workspaces/Admins.antt =====
-- The requests of app/routers/projects.py as one data type, and runs of them.
mod Rows
pub mod Steps
pub mod Led
use arkon.Base.{ℕ, Bool, String, Option, none, some, List, [], ◌∷◌, Result, ok, err, ◌>>=◌}
use arkon.Access.{Employee}
use arkon.Workspaces.{
  Workspaces, create_project, ProjectUpdate, update_project, delete_project, add_member,
  remove_member, update_member,
}
use arkon.Workspaces.Sources.{add_project_source, remove_project_source}
use arkon.Workspaces.Bulk.{BulkAddResponse, bulk_add_members}
use arkon.Workspaces.Bulk.Single.{or_same}

pub data Request : Type 0 where
  create : String → Option String → Option String → Request
  update : ℕ → ProjectUpdate → Request
  delete : ℕ → Request
  add : ℕ → String → String → Request
  bulk_add : ℕ → String → List String → Request
  remove : ℕ → ℕ → Request
  change_role : ℕ → ℕ → String → Request
  add_source : ℕ → ℕ → Request
  remove_source : ℕ → ℕ → Request

-- the database after the response of a bulk request
abbrev pub database : Result ℕ (BulkAddResponse × Workspaces) → Result ℕ Workspaces
database (ok (_, w)) = ok w
database (err e) = err e

module _ (uuid : String → Option ℕ) (insert_fails : ℕ → Bool) where
  unfoldable pub perform : Request → Employee → Workspaces → Result ℕ Workspaces
  perform (create name description workspace_type) = create_project name description workspace_type
  perform (update project_id body) = update_project project_id body
  perform (delete project_id) = delete_project project_id
  perform (add project_id raw_id role) = add_member uuid project_id raw_id role
  perform (bulk_add project_id role ids) =
      λ user w. database (bulk_add_members uuid insert_fails project_id role ids user w)
  perform (remove project_id employee_id) = remove_member project_id employee_id
  perform (change_role project_id employee_id role) = update_member project_id employee_id role
  perform (add_source project_id source_id) = add_project_source project_id source_id
  perform (remove_source project_id source_id) = remove_project_source project_id source_id

  -- Requests one after another, each by a user: one that is refused changes nothing.
  abbrev pub run : List (Employee × Request) → Workspaces → Workspaces
  run [] w = w
  run ((user, r) ∷ rs) w = run rs (or_same w (perform r user w))
