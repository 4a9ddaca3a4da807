-- ===== src/Workspaces/Admins/Led.antt =====
-- Every workspace keeps an admin, whatever is requested of app/routers/projects.py.
use arkon.Base.{ℕ, ◌≡◌, String, Bool, true, Option, ◌>>=◌, ◌>>◌}
use arkon.Access.{Employee, get_workspace_role}
use arkon.Workspaces.{Workspaces, has_project, role_suffices}
use arkon.Workspaces.Admins.Steps.{WellRun}

module _ (user : Employee) (w : Workspaces) (h : WellRun w) where
  as_role : (p : ℕ) (min_role : String) → Bool
  as_role p min_role = role_suffices (get_workspace_role w.members user p) min_role

module _ (uuid : String → Option ℕ) (insert_fails : ℕ → Bool) (p : ℕ) (role : String) where
  -- the loop adds members who were none, to a project that is there
  Stays : Workspaces → Type 0
  Stays w = WellRun w × (has_project p w ≡ true)
