-- ===== src/Reduce/Roots.antt =====
-- The loop of `_root` ends, and the roots after a merge (app/ai/mrp/reducer.py).
use arkon.Base.{
  ℕ, zero, suc, ◌<◌, ◌≡◌, ◌≢◌, refl, sym, ap, ◌∙◌, Bool, none, some, Option-cases, Bool-cases, inl,
  inr, [], ◌∷◌, length, ◌==◌, ==_iff, if◌then◌else◌, arith,
}
use arkon.Reduce.{MergeMap, merged, root_loop, root}

-- A map that joins roots only: of indices below n, each time one root goes into another.
pub data Built (n : ℕ) : MergeMap → Type 0 where
  start : Built n []
  join :
      {m : MergeMap} (a b : ℕ)
      → Built n m
      → a < n
      → b < n
      → a ≢ b
      → merged a m ≡ none
      → merged b m ≡ none
      → Built n ((a, b) ∷ m)

merged_self : (a b : ℕ) (m : MergeMap) → merged a ((a, b) ∷ m) ≡ some b
unfolding merged
merged_self a b m = ground arith

pub merged-other : (i a b : ℕ) (m : MergeMap) → i ≢ a → merged i ((a, b) ∷ m) ≡ merged i m
unfolding merged
merged-other i a b m h = ground arith

module _ (m : MergeMap) (a b : ℕ) (ne : a ≢ b) (ha : merged a m ≡ none)
    (hb : merged b m ≡ none) where
  joined-b : merged b ((a, b) ∷ m) ≡ none
  joined-b = merged-other b a b m (λ e. ne (sym e)) ∙ hb

  -- what led to the root `a` leads to `b`
  root_loop-at :
      (f i r : ℕ)
      → i ≡ a
      → root_loop (suc f) m i ≡ some r
      → root_loop (suc (suc f)) ((a, b) ∷ m) i ≡ some (if r == a then b else r)
  unfolding root_loop
  root_loop-at f i r e h = ground (arith, joined-b, merged_self a b m)

  -- After `a` went into `b`, what led to `a` leads to `b`.
  pub root_loop-join :
      (f i r : ℕ)
      → root_loop f m i ≡ some r
      → root_loop (suc f) ((a, b) ∷ m) i ≡ some (if r == a then b else r)
  unfolding root_loop
  root_loop-join zero i r h = cc
  root_loop-join (suc f) i r h = elim (Bool-cases (i == a)) [
    | inl e ↦ root_loop-at f i r ((==_iff i a).0 e) h
    | inr e ↦
        let ne' : i ≢ a = ground arith in
        elim (Option-cases (merged i m)) [
          | inl none_i ↦ ground (arith, merged-other i a b m ne')
          | inr (p, some_p) ↦ ground (arith, merged-other i a b m ne', root_loop-join f p r)
        ]
  ]

-- A root of a map: it is no key.
abbrev pub IsRoot : MergeMap → ℕ → Type 0
IsRoot m r = merged r m ≡ none

-- What the roots are after `a` went into `b`.
pub root-join :
    (m : MergeMap) (a b i r : ℕ)
    → a ≢ b
    → IsRoot m a
    → IsRoot m b
    → root m i ≡ some r
    → root ((a, b) ∷ m) i ≡ some (if r == a then b else r)
unfolding root
root-join m a b i r ne ha hb h = root_loop-join m a b ne ha hb (suc (length m)) i r h

-- the root of index `i`
abbrev pub RootOf : MergeMap → ℕ → ℕ → Type 0
RootOf m i r = (root m i ≡ some r) × IsRoot m r

pub root-start : (i : ℕ) → RootOf [] i i
unfolding merged root root_loop
root-start i = (refl, refl)

pub RootOf-join :
    (m : MergeMap) (a b i r : ℕ)
    → a ≢ b
    → IsRoot m a
    → IsRoot m b
    → RootOf m i r
    → RootOf ((a, b) ∷ m) i (if r == a then b else r)
RootOf-join m a b i r ne ra rb (e, root_r) =
    let eq = root-join m a b i r ne ra rb e in
    elim (Bool-cases (r == a)) [
      | inl t ↦ rw t (
        eq ∙ ap (λ (x : Bool). some (if x then b else r)) t,
        merged-other b a b m (λ e. ne (sym e)) ∙ rb,
      )
      | inr t ↦
          let other : r ≢ a = ground arith in
          rw t (
            eq ∙ ap (λ (x : Bool). some (if x then b else r)) t,
            merged-other r a b m other ∙ root_r,
          )
    ]

-- Every index has a root: the loop of `_root` ends, within the fuel, and inside the entities.
pub root_lem :
    {n : ℕ} {m : MergeMap} → Built n m → (i : ℕ) → (r : ℕ) × RootOf m i r × (i < n → r < n)
root_lem start i = let (e, r) = root-start i in (i, (e, r), λ h. h)
root_lem {n} (join {m} a b w ha hb ne ra rb) i =
    let (r, is_root, lt) = root_lem w i in
    (
      if r == a then b else r,
      RootOf-join m a b i r ne ra rb is_root,
      λ h. let below = lt h in ground arith,
    )

pub root_self : (m : MergeMap) (r : ℕ) → IsRoot m r → root m r ≡ some r
unfolding root root_loop
root_self m r h = ground arith
