-- ===== src/Workspaces/Sources.antt =====
-- The sources of a workspace: the endpoints of app/routers/projects.py that link and remove them.
use arkon.Base.{
  ℕ, Bool, false, not, ◌&&◌, Option, none, some, [], ◌∷◌, ◌++◌, any, find, keep, ◌==◌, str_eq,
  if◌then◌else◌, Result, ok, err, ◌>>◌, guard,
}
use arkon.Access.{Employee}
use arkon.Identity.{ProjectSource}
use arkon.Workspaces.{OwnedSource, Workspaces, get_project_or_404, require_workspace_role}

abbrev pub is_link : ℕ → ℕ → ProjectSource → Bool
is_link project_id source_id s = s.project_id == project_id && s.source_id == source_id

unfoldable pub add_project_source : ℕ → ℕ → Employee → Workspaces → Result ℕ Workspaces
add_project_source project_id source_id user w = do
  get_project_or_404 project_id w
  require_workspace_role w user project_id "editor"
  guard (any (λ s. s.id == source_id) w.sources) 404
  guard (not (any (is_link project_id source_id) w.project_sources)) 409
  ok (record w {
    project_sources =
        w.project_sources ++ record { project_id = project_id; source_id = source_id } ∷ [];
  })

abbrev pub is_owned : ℕ → Option OwnedSource → Bool
is_owned project_id none = false
is_owned project_id (some s) =
    str_eq s.scope_type "project" && elim s.scope_id [ none ↦ false | some p ↦ p == project_id ]

abbrev pub unlinked : ℕ → ℕ → Workspaces → Workspaces
unlinked project_id source_id w = record w {
  project_sources = keep (λ s. not (is_link project_id source_id s)) w.project_sources;
}

abbrev pub without_source : ℕ → Workspaces → Workspaces
without_source source_id w = record w {
  sources = keep (λ s. not (s.id == source_id)) w.sources;
  project_sources = keep (λ s. not (s.source_id == source_id)) w.project_sources;
}

-- A linked source loses its link; a source that the workspace owns is deleted, with its links.
unfoldable pub remove_project_source : ℕ → ℕ → Employee → Workspaces → Result ℕ Workspaces
remove_project_source project_id source_id user w = do
  require_workspace_role w user project_id "editor"
  (if any (is_link project_id source_id) w.project_sources
      then ok (unlinked project_id source_id w)
      else if is_owned project_id (find (λ s. s.id == source_id) w.sources)
      then ok (without_source source_id w)
      else err 404)
