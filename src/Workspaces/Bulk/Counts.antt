-- ===== src/Workspaces/Bulk/Counts.antt =====
-- What the response of a bulk request counts (app/routers/projects.py).
use mathlib.Core.List.{append_assoc, append-nil, map-append}
use arkon.Base.{
  ap, ◌++◌, map, sym, ◌∙◌, ℕ, ◌+◌, ◌≡◌, String, Bool, Option, none, some, Bool-cases, inl, inr,
  List, [], ◌∷◌, length, length-append, length-snoc, guard-ok, str_elem, ok, arith,
}
use arkon.Access.{Employee, get_workspace_role}
use arkon.Workspaces.{
  Workspaces, get_project_or_404, require_workspace_role, is_valid_role, has_project, role_suffices,
}
use arkon.Workspaces.Bulk.{
  BulkAddItemResult, BulkStatus, added, skipped, errored, BulkAddResponse, BulkState, count_result,
  add_one, add_read, bulk_step, bulk_loop, bulk_start, bulk_add_members,
}

-- the ids that results are for
abbrev pub named : List BulkAddItemResult → List String
named results = map (λ r. r.employee_id) results

-- The counts, against a start: one result for each id in order, counted once, and a member for each
-- that is counted as added.
record Counted (ids : List String) (s t : BulkState) : Type 0 where
  names : named t.response.results ≡ named s.response.results ++ ids
  results : length t.response.results ≡ length ids + length s.response.results
  sums :
      t.response.added_count + t.response.skipped_count + t.response.errored_count
      ≡ length ids + s.response.added_count + s.response.skipped_count + s.response.errored_count
  members :
      length t.workspaces.members + s.response.added_count
      ≡ length s.workspaces.members + t.response.added_count

-- members that a result stands for
abbrev gain : BulkStatus → ℕ
gain added = 1
gain skipped = 0
gain errored = 0

counted_lem :
    (raw_id : String) (status : BulkStatus) (s : BulkState) (seen : List String) (w : Workspaces)
    → length w.members ≡ length s.workspaces.members + gain status
    → Counted
        (raw_id ∷ [])
        s
        (record { response = count_result raw_id status s.response; seen = seen; workspaces = w })
unfolding count_result
counted_lem raw_id added s seen w h = record {
  names = map-append (λ r. r.employee_id) s.response.results _;
  results = omega (arith, length-append {0} s.response.results);
  sums = omega arith;
  members = omega arith;
}
counted_lem raw_id skipped s seen w h = record {
  names = map-append (λ r. r.employee_id) s.response.results _;
  results = omega (arith, length-append {0} s.response.results);
  sums = omega arith;
  members = omega arith;
}
counted_lem raw_id errored s seen w h = record {
  names = map-append (λ r. r.employee_id) s.response.results _;
  results = omega (arith, length-append {0} s.response.results);
  sums = omega arith;
  members = omega arith;
}

module _ (uuid : String → Option ℕ) (insert_fails : ℕ → Bool) (project_id : ℕ) (role : String) where
  -- a member more exactly for the result `added`
  add_one-members :
      (e : ℕ) (w : Workspaces)
      → let (status, w') = add_one uuid insert_fails project_id role e w in
        length w'.members ≡ length w.members + gain status
  unfolding add_one
  add_one-members e w = ground (
    arith,
    length-snoc w.members (record { project_id = project_id; employee_id = e; role = role }),
  )

  add_read-members :
      (o : Option ℕ) (w : Workspaces)
      → let (status, w') = add_read uuid insert_fails project_id role o w in
        length w'.members ≡ length w.members + gain status
  unfolding add_read
  add_read-members none w = omega arith
  add_read-members (some e) w = add_one-members e w

  step-Counted :
      (raw_id : String) (s : BulkState)
      → Counted (raw_id ∷ []) s (bulk_step uuid insert_fails project_id role raw_id s)
  unfolding bulk_step
  step-Counted raw_id s = elim (Bool-cases (str_elem raw_id s.seen)) [
    | inl t ↦ rw t (counted_lem raw_id skipped s s.seen s.workspaces (omega arith))
    | inr t ↦ rw t (counted_lem raw_id _ s _ _ (add_read-members (uuid raw_id) s.workspaces))
  ]

  loop-Counted :
      (raw_ids : List String) (s : BulkState)
      → Counted raw_ids s (bulk_loop uuid insert_fails project_id role raw_ids s)
  unfolding bulk_loop
  loop-Counted [] s = record {
    names = sym (append-nil _);
    results = omega arith;
    sums = omega arith;
    members = omega arith;
  }
  loop-Counted (raw_id ∷ raw_ids) s =
      let one = step-Counted raw_id s in
      let rest = loop-Counted raw_ids (bulk_step uuid insert_fails project_id role raw_id s) in
      record {
        names =
            rest.names
            ∙ ap (λ names. names ++ raw_ids) one.names
            ∙ append_assoc (named s.response.results) (raw_id ∷ []) raw_ids;
        results = omega arith;
        sums = omega arith;
        members = omega arith;
      }

  -- The results of a bulk request that is answered are for the ids that it names, one for each in their
  -- order, its three counts add up to the number of the ids, and the members are more by the count of
  -- those added.
  pub bulk_add_members-counts :
      (ids : List String) (user : Employee) (w : Workspaces) (response : BulkAddResponse)
      (w' : Workspaces)
      → bulk_add_members uuid insert_fails project_id role ids user w ≡ ok (response, w')
      → (named response.results ≡ ids)
        × (length response.results ≡ length ids)
        × (response.added_count + response.skipped_count + response.errored_count ≡ length ids)
        × (length w'.members ≡ length w.members + response.added_count)
  unfolding bulk_add_members get_project_or_404 require_workspace_role
  bulk_add_members-counts ids user w response w' h =
      let counted = loop-Counted ids (bulk_start uuid insert_fails project_id role w) in
      let (_, h1) = guard-ok (has_project project_id w) 404 _ h in
      let (_, h2) =
        guard-ok (role_suffices (get_workspace_role w.members user project_id) "admin") 403 _ h1 in
      let (_, h3) = guard-ok (is_valid_role role) 400 _ h2 in ground arith
