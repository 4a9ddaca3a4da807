-- ===== src/Workspaces/Admins/Rows.antt =====
-- Counting rows of `project_members`, before and after a change of them.
use arkon.Base.{
  ℕ, suc, ◌+◌, ◌<◌, ◌≤◌, ◌≡◌, refl, String, Bool, true, false, not, some, List, [], ◌∷◌, ◌++◌, any,
  all, find, keep, ltb, ◌==◌, if◌then◌else◌, arith, Bool-cases, inl, inr,
}
use arkon.Access.{ProjectMember}
use arkon.Workspaces.{is_row, is_admin_row, count_admins, without_member, with_role}

-- `true` counts one
abbrev pub one : Bool → ℕ
one b = if b then 1 else 0

abbrev pub count_rows : ℕ → ℕ → List ProjectMember → ℕ
count_rows p e [] = 0
count_rows p e (m ∷ ms) = one (is_row p e m) + count_rows p e ms

-- every row is of a project with a number below
abbrev pub rows_below : ℕ → List ProjectMember → Bool
rows_below n ms = all (λ m. ltb m.project_id n) ms

pub count_admins-snoc :
    (p : ℕ) (ms : List ProjectMember) (m : ProjectMember)
    → count_admins p (ms ++ m ∷ []) ≡ count_admins p ms + one (is_admin_row p m)
unfolding count_admins
count_admins-snoc p [] m = omega arith
count_admins-snoc p (x ∷ ms) m = omega (arith, count_admins-snoc p ms m)

pub count_rows-snoc :
    (p e : ℕ) (ms : List ProjectMember) (m : ProjectMember)
    → count_rows p e (ms ++ m ∷ []) ≡ count_rows p e ms + one (is_row p e m)
count_rows-snoc p e [] m = omega arith
count_rows-snoc p e (x ∷ ms) m = omega (arith, count_rows-snoc p e ms m)

pub count_rows-none :
    (p e : ℕ) (ms : List ProjectMember) → any (is_row p e) ms ≡ false → count_rows p e ms ≡ 0
count_rows-none p e [] h = refl
count_rows-none p e (x ∷ ms) h = ground (arith, count_rows-none p e ms)

pub count_rows-below :
    (n p e : ℕ) (ms : List ProjectMember) → rows_below n ms ≡ true → n ≤ p → count_rows p e ms ≡ 0
count_rows-below n p e [] h le = refl
count_rows-below n p e (x ∷ ms) h le = ground (arith, count_rows-below n p e ms)

-- rows that are left
pub count_rows-keep :
    (p e : ℕ) (test : ProjectMember → Bool) (ms : List ProjectMember)
    → count_rows p e (keep test ms) ≤ count_rows p e ms
count_rows-keep p e test [] = omega arith
count_rows-keep p e test (x ∷ ms) = ground (arith, count_rows-keep p e test ms)

-- the admins of another project
pub count_admins-other :
    (p q : ℕ) (ms : List ProjectMember)
    → (q == p) ≡ false
    → count_admins q (keep (λ m. not (m.project_id == p)) ms) ≡ count_admins q ms
unfolding count_admins
count_admins-other p q [] h = refl
count_admins-other p q (x ∷ ms) h = ground (arith, count_admins-other p q ms h)

without-none :
    (p e : ℕ) (ms : List ProjectMember) → count_rows p e ms ≡ 0 → without_member p e ms ≡ ms
unfolding without_member
without-none p e [] h = refl
without-none p e (x ∷ ms) h = ground (arith, without-none p e ms)

-- Without the one row of a member, the admins are fewer by that row.
pub count_admins-without :
    (p e q : ℕ) (ms : List ProjectMember) (m : ProjectMember)
    → count_rows p e ms ≤ 1
    → find (is_row p e) ms ≡ some m
    → count_admins q (without_member p e ms) + one (is_admin_row q m) ≡ count_admins q ms
unfolding count_admins without_member
count_admins-without p e q [] m le h = cc
count_admins-without p e q (x ∷ ms) m le h = elim (Bool-cases (is_row p e x)) [
  | inl t ↦ ground (arith, without-none p e ms)
  | inr t ↦ ground (arith, count_admins-without p e q ms m)
]

with_role-none :
    (p e : ℕ) (role : String) (ms : List ProjectMember)
    → count_rows p e ms ≡ 0
    → with_role p e role ms ≡ ms
unfolding with_role
with_role-none p e role [] h = refl
with_role-none p e role (x ∷ ms) h = ground (arith, with_role-none p e role ms)

-- With a new role for the one row of a member, that row counts by the new role.
pub count_admins-with_role :
    (p e q : ℕ) (role : String) (ms : List ProjectMember) (m : ProjectMember)
    → count_rows p e ms ≤ 1
    → find (is_row p e) ms ≡ some m
    → count_admins q (with_role p e role ms) + one (is_admin_row q m)
      ≡ count_admins q ms + one (is_admin_row q (record m { role = role }))
unfolding count_admins with_role
count_admins-with_role p e q role [] m le h = cc
count_admins-with_role p e q role (x ∷ ms) m le h = elim (Bool-cases (is_row p e x)) [
  | inl t ↦ ground (arith, with_role-none p e role ms)
  | inr t ↦ ground (arith, count_admins-with_role p e q role ms m)
]

pub count_rows-with_role :
    (p e q k : ℕ) (role : String) (ms : List ProjectMember)
    → count_rows q k (with_role p e role ms) ≡ count_rows q k ms
unfolding with_role
count_rows-with_role p e q k role [] = refl
count_rows-with_role p e q k role (x ∷ ms) = ground (arith, count_rows-with_role p e q k role ms)

pub rows_below-with_role :
    (n p e : ℕ) (role : String) (ms : List ProjectMember)
    → rows_below n (with_role p e role ms) ≡ rows_below n ms
unfolding with_role
rows_below-with_role n p e role [] = refl
rows_below-with_role n p e role (x ∷ ms) = ground (arith, rows_below-with_role n p e role ms)

pub find-is_row :
    (p e : ℕ) (ms : List ProjectMember) (m : ProjectMember)
    → find (is_row p e) ms ≡ some m
    → is_row p e m ≡ true
find-is_row p e [] m h = cc
find-is_row p e (x ∷ ms) m h = ground (arith, find-is_row p e ms m)

-- numbers below a bound, at the end of a list and under a larger bound
module _ {ℓ} {A : Type ℓ} (number : A → ℕ) where
  pub below-snoc :
      (n : ℕ) (xs : List A) (x : A)
      → all (λ y. ltb (number y) n) xs ≡ true
      → ltb (number x) n ≡ true
      → all (λ y. ltb (number y) n) (xs ++ x ∷ []) ≡ true
  below-snoc n [] x h k = ground arith
  below-snoc n (y ∷ xs) x h k = ground (arith, below-snoc n xs x)

  pub below-suc :
      (n : ℕ) (xs : List A)
      → all (λ y. ltb (number y) n) xs ≡ true
      → all (λ y. ltb (number y) (suc n)) xs ≡ true
  below-suc n [] h = refl
  below-suc n (y ∷ xs) h = ground (arith, below-suc n xs)

  pub below-any :
      (n k : ℕ) (xs : List A)
      → all (λ y. ltb (number y) n) xs ≡ true
      → any (λ y. number y == k) xs ≡ true
      → k < n
  below-any n k [] h m = cc
  below-any n k (y ∷ xs) h m = ground (arith, below-any n k xs)

  pub below-keep :
      (n : ℕ) (test : A → Bool) (xs : List A)
      → all (λ y. ltb (number y) n) xs ≡ true
      → all (λ y. ltb (number y) n) (keep test xs) ≡ true
  below-keep n test [] h = refl
  below-keep n test (y ∷ xs) h = ground (arith, below-keep n test xs)

  -- what is left after a deletion was there, under another number
  pub any-without :
      (p q : ℕ) (xs : List A)
      → any (λ y. number y == q) (keep (λ y. not (number y == p)) xs) ≡ true
      → (any (λ y. number y == q) xs ≡ true) × ((q == p) ≡ false)
  any-without p q [] h = cc
  any-without p q (y ∷ xs) h = ground (arith, any-without p q xs)
