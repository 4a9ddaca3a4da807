-- ===== src/Workspaces/Admins/Steps.antt =====
-- What one change of the rows does to the invariant of workspaces (app/routers/projects.py).
use arkon.Base.{
  ℕ, suc, ◌≤◌, ◌≡◌, refl, ◌∙◌, sym, String, Bool, true, false, not, ◌&&◌, some, List, [], ◌∷◌, ◌++◌,
  any, all, find, keep, ltb, leb, ◌==◌, str_eq, if◌then◌else◌, arith, Result, ok, err, guard, ◌>>◌,
  any-append,
}
use arkon.Access.{ProjectMember}
use arkon.Workspaces.{
  Workspace, Workspaces, is_row, has_project, count_admins, ProjectUpdate, updated, update_rows,
  is_member, with_member, without_member, with_role,
}
use arkon.Workspaces.Admins.Rows.{
  count_rows, rows_below, count_admins-snoc, count_rows-snoc, count_rows-none, count_rows-below,
  count_rows-keep, below-snoc, below-suc, below-any, below-keep, any-without, count_admins-other,
  count_admins-without, count_admins-with_role, count_rows-with_role, rows_below-with_role,
  find-is_row,
}

-- The rows fit together, and every workspace has an admin among its members.
pub record WellRun (w : Workspaces) : Type 0 where
  pub projects_below : all (λ p. ltb p.id w.next_id) w.projects ≡ true
  pub members_below : rows_below w.next_id w.members ≡ true
  pub unique : (p e : ℕ) → count_rows p e w.members ≤ 1
  pub led : (p : ℕ) → has_project p w ≡ true → 1 ≤ count_admins p w.members

abbrev pub Keeps : Workspaces → Result ℕ Workspaces → Type 0
Keeps w r = (w' : Workspaces) → r ≡ ok w' → WellRun w'

pub ok_lem :
    {w v : Workspaces} → WellRun v → ◌≡◌ {A = Result ℕ Workspaces} (ok v) (ok w) → WellRun w
ok_lem {w} {v} h e = let same : v ≡ w = cc in rw (← same) h

-- behind a guard
pub guarded :
    (b : Bool) (e : ℕ) (w : Workspaces) (rest : Result ℕ Workspaces)
    → (b ≡ true → Keeps w rest)
    → Keeps w (guard b e >> rest)
guarded true e w rest h w' eq = h refl w' eq
guarded false e w rest h w' eq = cc

pub unless :
    (b : Bool) (e : ℕ) (w v : Workspaces)
    → (b ≡ false → WellRun v)
    → Keeps w (if b then err e else ok v)
unless true e w v h w' eq = cc
unless false e w v h w' eq = ok_lem (h refl) eq

-- the row of the one who creates a workspace
abbrev pub first_row : Workspaces → ℕ → ProjectMember
first_row w user_id = record { project_id = w.next_id; employee_id = user_id; role = "admin" }

pub created_lem :
    (w : Workspaces) (p : Workspace) (user_id : ℕ)
    → p.id ≡ w.next_id
    → WellRun w
    → WellRun (record w {
      projects = w.projects ++ p ∷ [];
      members = w.members ++ first_row w user_id ∷ [];
      next_id = suc w.next_id;
    })
created_lem w p user_id e v = record {
  projects_below =
      below-snoc (λ (x : Workspace). x.id) (suc w.next_id) w.projects p
        (below-suc (λ (x : Workspace). x.id) w.next_id w.projects v.projects_below) (ground arith);
  members_below =
      below-snoc (λ (x : ProjectMember). x.project_id) (suc w.next_id) w.members
        (first_row w user_id)
        (below-suc (λ (x : ProjectMember). x.project_id) w.next_id w.members v.members_below)
        (ground arith);
  unique = λ q k. ground (
    arith,
    count_rows-snoc q k w.members (first_row w user_id),
    v.unique q k,
    count_rows-below w.next_id q k w.members v.members_below,
  );
  led = λ q h. ground (
    arith,
    count_admins-snoc q w.members (first_row w user_id),
    v.led q,
    any-append (λ x. x.id == q) w.projects (p ∷ []),
  );
}

abbrev pub row : ℕ → ℕ → String → ProjectMember
row p e role = record { project_id = p; employee_id = e; role = role }

-- one member more, who was none
pub with_member_lem :
    (w : Workspaces) (p e : ℕ) (role : String)
    → has_project p w ≡ true
    → is_member p e w ≡ false
    → WellRun w
    → WellRun (with_member p e role w)
with_member_lem w p e role known new v = record {
  projects_below = v.projects_below;
  members_below =
      below-snoc (λ (x : ProjectMember). x.project_id) w.next_id w.members (row p e role)
        v.members_below
        (let below =
            below-any (λ (x : Workspace). x.id) w.next_id p w.projects v.projects_below known in
          ground arith);
  unique = λ q k. ground (
    arith,
    count_rows-snoc q k w.members (row p e role),
    v.unique q k,
    count_rows-none p e w.members new,
  );
  led = λ q h. omega (arith, v.led q h, count_admins-snoc q w.members (row p e role));
}

-- without a project, its members and its links
pub deleted_lem :
    (w v : Workspaces) (p : ℕ)
    → v.projects ≡ keep (λ x. not (x.id == p)) w.projects
    → v.members ≡ keep (λ m. not (m.project_id == p)) w.members
    → v.next_id ≡ w.next_id
    → WellRun w
    → WellRun v
deleted_lem w v p eq_projects eq_members eq_next h = record {
  projects_below =
      rw (eq_projects, eq_next)
        (below-keep (λ (x : Workspace). x.id) w.next_id (λ x. not (x.id == p)) w.projects
          h.projects_below);
  members_below =
      rw (eq_members, eq_next)
        (below-keep (λ (m : ProjectMember). m.project_id) w.next_id (λ m. not (m.project_id == p))
          w.members h.members_below);
  unique = λ q k.
      rw eq_members
        (omega (arith, h.unique q k, count_rows-keep q k (λ m. not (m.project_id == p)) w.members));
  led = λ q there.
      let (before, other) =
        any-without (λ (x : Workspace). x.id) p q w.projects (rw eq_projects at there) in
      rw (eq_members, count_admins-other p q w.members other) (h.led q before);
}

module _ (w : Workspaces) (p e : ℕ) (m : ProjectMember) (h : WellRun w)
    (found : find (is_row p e) w.members ≡ some m) where
  -- without the row of a member who is not the last admin
  pub removed_lem :
      (str_eq m.role "admin" && leb (count_admins p w.members) 1) ≡ false
      → WellRun (record w { members = without_member p e w.members })
  unfolding without_member
  removed_lem enough =
      let is_it = find-is_row p e w.members m found in
      record {
        projects_below = h.projects_below;
        members_below =
            below-keep (λ (x : ProjectMember). x.project_id) w.next_id (λ x. not (is_row p e x))
              w.members h.members_below;
        unique = λ q k.
            omega (arith, h.unique q k, count_rows-keep q k (λ x. not (is_row p e x)) w.members);
        led = λ q there.
            ground (arith, h.led q, count_admins-without p e q w.members m (h.unique p e) found);
      }

  -- with a new role for a member who is not the last admin, or stays one
  pub role_lem :
      (role : String)
      → ((str_eq m.role "admin" && not (str_eq role "admin")) && leb (count_admins p w.members) 1)
        ≡ false
      → WellRun (record w { members = with_role p e role w.members })
  role_lem role enough =
      let is_it = find-is_row p e w.members m found in
      record {
        projects_below = h.projects_below;
        members_below = rows_below-with_role w.next_id p e role w.members ∙ h.members_below;
        unique = λ q k. rw (count_rows-with_role p e q k role w.members) (h.unique q k);
        led = λ q there.
            ground
              (arith, h.led q, count_admins-with_role p e q role w.members m (h.unique p e) found);
      }

-- what a request changes besides projects and members is of no matter
pub same_rows_lem :
    (w v : Workspaces)
    → v.projects ≡ w.projects
    → v.members ≡ w.members
    → v.next_id ≡ w.next_id
    → WellRun w
    → WellRun v
same_rows_lem w v eq_projects eq_members eq_next h = record {
  projects_below = rw (eq_projects, eq_next) h.projects_below;
  members_below = rw (eq_members, eq_next) h.members_below;
  unique = λ q k. rw eq_members (h.unique q k);
  led = λ q there. rw eq_members (h.led q (rw eq_projects at there));
}

update_rows-ids :
    (p : ℕ) (body : ProjectUpdate) (test : ℕ → Bool) (ps : List Workspace)
    → (any (λ x. test x.id) (update_rows p body ps) ≡ any (λ x. test x.id) ps)
      × (all (λ x. test x.id) (update_rows p body ps) ≡ all (λ x. test x.id) ps)
unfolding update_rows updated
update_rows-ids p body test [] = (refl, refl)
update_rows-ids p body test (x ∷ ps) =
    let (i, j) = update_rows-ids p body test ps in (ground arith, ground arith)

-- new columns for a project
pub updated_lem :
    (w : Workspaces) (p : ℕ) (body : ProjectUpdate)
    → WellRun w
    → WellRun (record w { projects = update_rows p body w.projects })
updated_lem w p body h = record {
  projects_below = (update_rows-ids p body (λ i. ltb i w.next_id) w.projects).1 ∙ h.projects_below;
  members_below = h.members_below;
  unique = h.unique;
  led = λ q there. h.led q (sym (update_rows-ids p body (λ i. i == q) w.projects).0 ∙ there);
}
