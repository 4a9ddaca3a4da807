-- ===== src/Workspaces/Examples.antt =====
-- The theorems on workspaces at one that its creator leads.
use arkon.Workspaces.Bulk.{add_one, add_read, bulk_loop, bulk_step, count_result}
use arkon.Access.{get_workspace_role, parse_role, workspace_role_can}
use arkon.Workspaces.{get_project_or_404, require_workspace_role}
use arkon.Base.{
  ℕ, ◌+◌, ◌≡◌, refl, String, false, Option, none, some, List, [], ◌∷◌, length, str_eq,
  if◌then◌else◌, ok,
}
use arkon.Access.{Employee}
use arkon.Samples.{admin, worker}
use arkon.Workspaces.{Workspaces}
use arkon.Workspaces.Bulk.{BulkAddResponse, bulk_add_members, added, skipped, errored}
use arkon.Workspaces.Bulk.Counts.{named, bulk_add_members-counts}
use arkon.Workspaces.Bulk.Single.{add_each, bulk_add_members-add_each}
use arkon.Workspaces.Admins.{Request, create, add, remove, change_role}

abbrev uuid : String → Option ℕ
uuid s = if str_eq s "one" then some 1 else if str_eq s "two" then some 2 else none

abbrev nothing : Workspaces
nothing = record {
  projects = [];
  members = [];
  employee_ids = 1 ∷ 2 ∷ [];
  sources = [];
  project_sources = [];
  next_id = 0;
}

abbrev requests : List (Employee × Request)
requests =
    (admin, create "Launch" none none)
    ∷ (admin, add 0 "two" "viewer")
    ∷ (admin, remove 0 1)
    ∷ (worker, change_role 0 2 "admin")
    ∷ []

abbrev launched : Workspaces
launched = record nothing {
  projects =
      record {
        id = 0;
        name = "Launch";
        description = none;
        workspace_type = "project";
        status = "active";
        created_by_id = some 1;
      }
      ∷ [];
  members = record { project_id = 0; employee_id = 1; role = "admin" } ∷ [];
  next_id = 1;
}

abbrev ids : List String
ids = "two" ∷ "two" ∷ "nine" ∷ "one" ∷ []

abbrev response : BulkAddResponse
response = record {
  results =
      record { employee_id = "two"; status = added }
      ∷ record { employee_id = "two"; status = skipped }
      ∷ record { employee_id = "nine"; status = errored }
      ∷ record { employee_id = "one"; status = skipped }
      ∷ [];
  added_count = 1;
  skipped_count = 2;
  errored_count = 1;
}

abbrev joined : Workspaces
joined = record launched {
  members =
      record { project_id = 0; employee_id = 1; role = "admin" }
      ∷ record { project_id = 0; employee_id = 2; role = "viewer" }
      ∷ [];
}

bulk_answer :
    bulk_add_members uuid (λ e. false) 0 "viewer" ids admin launched ≡ ok (response, joined)
unfolding bulk_add_members get_project_or_404 require_workspace_role get_workspace_role
    workspace_role_can parse_role bulk_loop bulk_step count_result add_read add_one
bulk_answer = refl

bulk_add_members-counts_example :
    (named response.results ≡ ids)
    × (length response.results ≡ 4)
    × (response.added_count + response.skipped_count + response.errored_count ≡ 4)
    × (length joined.members ≡ length launched.members + response.added_count)
bulk_add_members-counts_example =
    bulk_add_members-counts uuid (λ e. false) 0 "viewer" ids admin launched response joined
      bulk_answer

bulk_add_members-add_each_example : joined ≡ add_each uuid 0 "viewer" admin ids launched
bulk_add_members-add_each_example =
    bulk_add_members-add_each uuid (λ e. false) 0 "viewer" ids admin launched joined response
      (λ e. refl) bulk_answer
