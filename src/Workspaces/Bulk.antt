-- ===== src/Workspaces/Bulk.antt =====
-- Many members in one request: `bulk_add_members` of app/routers/projects.py, without the messages of
-- the single results. `insert_fails` says of whom the insert fails, since another request was faster.
pub mod Counts
pub mod Single
use arkon.Base.{
  ℕ, ◌+◌, String, Bool, true, false, not, Option, none, some, List, [], ◌∷◌, ◌++◌, elem, str_elem,
  if◌then◌else◌, Result, ok, err, ◌>>=◌, ◌>>◌, guard,
}
use arkon.Access.{Employee}
use arkon.Workspaces.{
  Workspaces, get_project_or_404, require_workspace_role, is_valid_role, is_member, with_member,
}

pub data BulkStatus : Type 0 where
  added skipped errored : BulkStatus

pub record BulkAddItemResult : Type 0 where
  pub employee_id : String
  pub status : BulkStatus

-- `BulkAddResponse`
pub record BulkAddResponse : Type 0 where
  pub results : List BulkAddItemResult
  pub added_count : ℕ
  pub skipped_count : ℕ
  pub errored_count : ℕ

-- the variables of the loop, with the database
pub record BulkState : Type 0 where
  pub response : BulkAddResponse
  pub seen : List String
  pub workspaces : Workspaces

-- a result appended, and counted
unfoldable pub count_result : String → BulkStatus → BulkAddResponse → BulkAddResponse
count_result raw_id added r = record r {
  results = r.results ++ record { employee_id = raw_id; status = added } ∷ [];
  added_count = r.added_count + 1;
}
count_result raw_id skipped r = record r {
  results = r.results ++ record { employee_id = raw_id; status = skipped } ∷ [];
  skipped_count = r.skipped_count + 1;
}
count_result raw_id errored r = record r {
  results = r.results ++ record { employee_id = raw_id; status = errored } ∷ [];
  errored_count = r.errored_count + 1;
}

module _ (uuid : String → Option ℕ) (insert_fails : ℕ → Bool) (project_id : ℕ) (role : String) where
  -- what is done for an id that is read, and the result
  unfoldable pub add_one : ℕ → Workspaces → BulkStatus × Workspaces
  add_one employee_id w =
      if not (elem employee_id w.employee_ids)
      then (errored, w)
      else if is_member project_id employee_id w
      then (skipped, w)
      else if insert_fails employee_id
      then (errored, w)
      else (added, with_member project_id employee_id role w)

  -- the same for a text that was not seen before
  unfoldable pub add_read : Option ℕ → Workspaces → BulkStatus × Workspaces
  add_read none w = (errored, w)
  add_read (some employee_id) w = add_one employee_id w

  -- the body of the loop
  unfoldable pub bulk_step : String → BulkState → BulkState
  bulk_step raw_id s =
      if str_elem raw_id s.seen
      then record s { response = count_result raw_id skipped s.response }
      else let (status, w) = add_read (uuid raw_id) s.workspaces in
        record {
          response = count_result raw_id status s.response;
          seen = raw_id ∷ s.seen;
          workspaces = w;
        }

  unfoldable pub bulk_loop : List String → BulkState → BulkState
  bulk_loop [] s = s
  bulk_loop (raw_id ∷ raw_ids) s = bulk_loop raw_ids (bulk_step raw_id s)

  abbrev pub bulk_start : Workspaces → BulkState
  bulk_start w = record {
    response = record { results = []; added_count = 0; skipped_count = 0; errored_count = 0 };
    seen = [];
    workspaces = w;
  }

  unfoldable pub bulk_add_members :
      List String → Employee → Workspaces → Result ℕ (BulkAddResponse × Workspaces)
  bulk_add_members employee_ids user w = do
    get_project_or_404 project_id w
    require_workspace_role w user project_id "admin"
    guard (is_valid_role role) 400
    let s = bulk_loop employee_ids (bulk_start w)
    ok (s.response, s.workspaces)
