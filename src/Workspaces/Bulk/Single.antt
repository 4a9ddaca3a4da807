-- ===== src/Workspaces/Bulk/Single.antt =====
-- A bulk request against single ones (app/routers/projects.py).
use arkon.Base.{
  ℕ, ◌≡◌, refl, sym, ap, ◌∙◌, String, Bool, true, false, not, ◌||◌, Option, none, some,
  Option-cases, Bool-cases, inl, inr, List, [], ◌∷◌, ◌++◌, all, any-append, all_mono, all-cons,
  elem, str_elem, str_eq, str_eq_iff, ◌==◌, Result, ok, err, guard, guard-ok, ◌>>=◌, ◌>>◌, arith,
}
use arkon.Access.{Employee, is_admin, ProjectMember, member_role, get_workspace_role}
use arkon.Workspaces.{
  Workspaces, get_project_or_404, require_workspace_role, is_valid_role, is_member, has_project,
  role_suffices, is_row, with_member, add_member, or_500,
}
use arkon.Workspaces.Bulk.{
  BulkAddResponse, BulkState, add_one, add_read, bulk_step, bulk_loop, bulk_start, bulk_add_members,
}

-- the database after a request: an error leaves it as it was
abbrev pub or_same : Workspaces → Result ℕ Workspaces → Workspaces
or_same w (ok w') = w'
or_same w (err e) = w

module _ (uuid : String → Option ℕ) (project_id : ℕ) (role : String) (user : Employee) where
  -- one request of `add_member` for each id
  abbrev pub add_each : List String → Workspaces → Workspaces
  add_each [] w = w
  add_each (raw_id ∷ raw_ids) w =
      add_each raw_ids (or_same w (add_member uuid project_id raw_id role user w))

  -- what the request needs before it looks at the ids
  record Allowed (w : Workspaces) : Type 0 where
    known : has_project project_id w ≡ true
    suffices : role_suffices (get_workspace_role w.members user project_id) "admin" ≡ true
    valid : is_valid_role role ≡ true

  member_role-snoc :
      (ms : List ProjectMember) (m : ProjectMember) (p e : ℕ) (r : String)
      → member_role ms p e ≡ some r
      → member_role (ms ++ m ∷ []) p e ≡ some r
  unfolding member_role
  member_role-snoc [] m p e r h = cc
  member_role-snoc (x ∷ ms) m p e r h = ground (arith, member_role-snoc ms m p e r)

  -- Adding a member takes no right from the user.
  with_member-Allowed :
      (e : ℕ) (w : Workspaces) → Allowed w → Allowed (with_member project_id e role w)
  unfolding get_workspace_role
  with_member-Allowed e w a = elim (Bool-cases (is_admin user)) [
    | inl t ↦ ground arith
    | inr t ↦ elim (Option-cases (member_role w.members project_id user.id)) [
      | inl none_r ↦ ground arith
      | inr (r, some_r) ↦
          let row : ProjectMember = record {
            project_id = project_id;
            employee_id = e;
            role = role;
          } in
          ground (arith, member_role-snoc w.members row project_id user.id r)
    ]
  ]

  -- an id that adds nobody any more
  abbrev settled : Workspaces → Option ℕ → Bool
  settled w none = true
  settled w (some e) = not (elem e w.employee_ids) || is_member project_id e w

  module _ (insert_fails : ℕ → Bool) (never : (e : ℕ) → insert_fails e ≡ false) where
    abbrev read : Option ℕ → Workspaces → Workspaces
    read o w = (add_read uuid insert_fails project_id role o w).1

    -- an id that is read is treated as by a single request
    single-read :
        (raw_id : String) (w : Workspaces)
        → Allowed w
        → or_same w (add_member uuid project_id raw_id role user w) ≡ read (uuid raw_id) w
    unfolding add_read add_one add_member get_project_or_404 require_workspace_role
    single-read raw_id w a = rw (a.known, a.suffices, a.valid) (by_id (uuid raw_id))
      where
        by_id :
            (o : Option ℕ)
            → or_same w (do
              employee_id ← or_500 o
              guard (elem employee_id w.employee_ids) 404
              guard (not (is_member project_id employee_id w)) 409
              ok (with_member project_id employee_id role w))
              ≡ read o w
        by_id none = refl
        by_id (some e) = ground (arith, never e)

    read-Allowed : (o : Option ℕ) (w : Workspaces) → Allowed w → Allowed (read o w)
    unfolding add_read add_one
    read-Allowed none w a = a
    read-Allowed (some e) w a = ground (arith, with_member-Allowed e w a)

    is_member-snoc :
        (e k : ℕ) (w : Workspaces)
        → is_member project_id k (with_member project_id e role w)
          ≡ (is_member project_id k w || e == k)
    is_member-snoc e k w =
        any-append (is_row project_id k) w.members
          (record { project_id = project_id; employee_id = e; role = role } ∷ [])
        ∙ ground arith

    read-keeps :
        (o other : Option ℕ) (w : Workspaces)
        → settled w other ≡ true
        → settled (read o w) other ≡ true
    unfolding add_read add_one
    read-keeps none other w h = h
    read-keeps (some e) none w h = refl
    read-keeps (some e) (some k) w h = ground (arith, is_member-snoc e k w)

    read-settled : (o : Option ℕ) (w : Workspaces) → settled (read o w) o ≡ true
    unfolding add_read add_one
    read-settled none w = refl
    read-settled (some e) w = ground (arith, is_member-snoc e e w, never e)

    settled-read : (o : Option ℕ) (w : Workspaces) → settled w o ≡ true → read o w ≡ w
    unfolding add_read add_one
    settled-read none w h = refl
    settled-read (some e) w h = ground arith

    -- all that was seen adds nobody any more
    abbrev Settled : List String → Workspaces → Type 0
    Settled seen w = all (λ r. settled w (uuid r)) seen ≡ true

    settled_seen :
        (raw_id : String) (seen : List String) (w : Workspaces)
        → Settled seen w
        → str_elem raw_id seen ≡ true
        → settled w (uuid raw_id) ≡ true
    settled_seen raw_id [] w h m = cc
    settled_seen raw_id (r ∷ seen) w h m =
        let (first, rest) = all-cons (λ x. settled w (uuid x)) r seen h in
        elim (Bool-cases (str_eq r raw_id)) [
          | inl t ↦ rw (← (str_eq_iff r raw_id).0 t) first
          | inr t ↦ settled_seen raw_id seen w rest (ground arith)
        ]

    step-read :
        (raw_id : String) (s : BulkState)
        → Settled s.seen s.workspaces
        → (bulk_step uuid insert_fails project_id role raw_id s).workspaces
          ≡ read (uuid raw_id) s.workspaces
    unfolding bulk_step
    step-read raw_id s h = elim (Bool-cases (str_elem raw_id s.seen)) [
      | inl t ↦ rw t (
          sym
            (settled-read (uuid raw_id) s.workspaces (settled_seen raw_id s.seen s.workspaces h t)))
      | inr t ↦ rw t refl
    ]

    step-Settled :
        (raw_id : String) (s : BulkState)
        → Settled s.seen s.workspaces
        → let s' = bulk_step uuid insert_fails project_id role raw_id s in
          Settled s'.seen s'.workspaces
    unfolding bulk_step
    step-Settled raw_id s h = elim (Bool-cases (str_elem raw_id s.seen)) [
      | inl t ↦ rw t h
      | inr t ↦
          let later =
            all_mono (λ r. settled s.workspaces (uuid r))
              (λ r. settled (read (uuid raw_id) s.workspaces) (uuid r)) s.seen
              (λ r. read-keeps (uuid raw_id) (uuid r) s.workspaces) h in
          rw (t, read-settled (uuid raw_id) s.workspaces) later
    ]

    loop-each :
        (raw_ids : List String) (s : BulkState)
        → Settled s.seen s.workspaces
        → Allowed s.workspaces
        → (bulk_loop uuid insert_fails project_id role raw_ids s).workspaces
          ≡ add_each raw_ids s.workspaces
    unfolding bulk_loop
    loop-each [] s h a = refl
    loop-each (raw_id ∷ raw_ids) s h a =
        let s' = bulk_step uuid insert_fails project_id role raw_id s in
        let e = step-read raw_id s h in
        let single = single-read raw_id s.workspaces a in
        let allowed : Allowed s'.workspaces = rw e (read-Allowed (uuid raw_id) s.workspaces a) in
        loop-each raw_ids s' (step-Settled raw_id s h) allowed
        ∙ ap (add_each raw_ids) (e ∙ sym single)

-- Where no insert fails, a bulk request that is answered leaves the database as single requests for
-- the ids do, one after another, of which those that are refused change nothing.
pub bulk_add_members-add_each :
    (uuid : String → Option ℕ) (insert_fails : ℕ → Bool) (project_id : ℕ) (role : String)
    (ids : List String) (user : Employee) (w w' : Workspaces) (response : BulkAddResponse)
    → ((e : ℕ) → insert_fails e ≡ false)
    → bulk_add_members uuid insert_fails project_id role ids user w ≡ ok (response, w')
    → w' ≡ add_each uuid project_id role user ids w
unfolding bulk_add_members get_project_or_404 require_workspace_role
bulk_add_members-add_each uuid insert_fails project_id role ids user w w' response never h =
    let (known, h1) = guard-ok (has_project project_id w) 404 _ h in
    let (suffices, h2) =
      guard-ok (role_suffices (get_workspace_role w.members user project_id) "admin") 403 _ h1 in
    let (valid, h3) = guard-ok (is_valid_role role) 400 _ h2 in
    let allowed : Allowed uuid project_id role user w = record {
      known = known;
      suffices = suffices;
      valid = valid;
    } in
    let s = bulk_start uuid insert_fails project_id role w in
    let each = loop-each uuid project_id role user insert_fails never ids s refl allowed in
    ground arith
