-- ===== src/Reduce/Joins.antt =====
-- What merging one pair of entities does to the map of app/ai/mrp/reducer.py.
use arkon.Base.{
  ℕ, zero, suc, ◌<◌, ◌≡◌, ◌≢◌, ◌⊎◌, refl, sym, ◌∙◌, Option, some, Bool-cases, inl, inr, List, [],
  ◌∷◌, length, ◌==◌, leb, if◌then◌else◌, arith,
}
use arkon.Reduce.{MergeMap, root, Entity, entity_at, link, merge_roots, merge_pair}
use arkon.Reduce.Roots.{Built, join, IsRoot, RootOf, root-join, root_lem}

abbrev pub SameRoot : MergeMap → ℕ → ℕ → Type 0
SameRoot m x y = (r : ℕ) × (root m x ≡ some r) × (root m y ≡ some r)

-- membership in a list of pairs
pub data In {ℓ} {A : Type ℓ} (p : A) : List A → Type ℓ where
  first : {ps : List A} → In p (p ∷ ps)
  later : {q : A} {ps : List A} → In p ps → In p (q ∷ ps)

pub In-cons {ℓ} : {A : Type ℓ} {p q : A} {ps : List A} → In p (q ∷ ps) → (p ≡ q) ⊎ In p ps
In-cons first = inl refl
In-cons (later h) = inr h

-- the equivalence that a relation and a list of pairs generate
pub data Linked (R : ℕ → ℕ → Type 0) (ps : List (ℕ × ℕ)) : ℕ → ℕ → Type 0 where
  base : {x y : ℕ} → R x y → Linked R ps x y
  pair : {x y : ℕ} → In (x, y) ps → Linked R ps x y
  back : {x y : ℕ} → Linked R ps x y → Linked R ps y x
  chain : {x y z : ℕ} → Linked R ps x y → Linked R ps y z → Linked R ps x z

-- What one pair does to the map: nothing, or one of the two roots goes into the other.
pub data Joins (m : MergeMap) (i j : ℕ) (m' : MergeMap) : Type 0 where
  kept : m' ≡ m → SameRoot m i j → Joins m i j m'
  joined :
      (a b : ℕ)
      → m' ≡ (a, b) ∷ m
      → a ≢ b
      → IsRoot m a
      → IsRoot m b
      → ((root m i ≡ some a) × (root m j ≡ some b)) ⊎ ((root m i ≡ some b) × (root m j ≡ some a))
      → Joins m i j m'

pub entity_at_lem :
    (es : List Entity) (i : ℕ) → i < length es → (e : Entity) × (entity_at es i ≡ some e)
unfolding entity_at
entity_at_lem [] i h = absurd (omega arith)
entity_at_lem (e ∷ es) zero h = (e, refl)
entity_at_lem (e ∷ es) (suc i) h = entity_at_lem es i (omega arith)

-- What the loop's body does to the map, from the roots on.
abbrev pub Merges : List Entity → MergeMap → ℕ → ℕ → Option MergeMap → Type 0
Merges es m i j result =
    (m' : MergeMap) × (result ≡ some m') × Built (length es) m' × Joins m i j m'

join-Merges :
    (es : List Entity) (m : MergeMap) (i j a b : ℕ)
    → Built (length es) m
    → a < length es
    → b < length es
    → a ≢ b
    → IsRoot m a
    → IsRoot m b
    → ((root m i ≡ some a) × (root m j ≡ some b)) ⊎ ((root m i ≡ some b) × (root m j ≡ some a))
    → Merges es m i j (some ((a, b) ∷ m))
join-Merges es m i j a b w ha hb ne ra rb sides =
    ((a, b) ∷ m, refl, join a b w ha hb ne ra rb, joined a b refl ne ra rb sides)

link-Merges :
    (es : List Entity) (m : MergeMap) (i j ri rj : ℕ) (ei ej : Entity)
    → Built (length es) m
    → ri < length es
    → rj < length es
    → ri ≢ rj
    → RootOf m i ri
    → RootOf m j rj
    → Merges es m i j (some (link ri rj ei ej m))
unfolding link
link-Merges es m i j ri rj ei ej w hi hj ne (pi, root_i) (pj, root_j) =
    elim (Bool-cases (leb ej.mention_count ei.mention_count)) [
      | inl t ↦
          rw t (join-Merges es m i j rj ri w hj hi (λ e. ne (sym e)) root_j root_i (inr (pi, pj)))
      | inr t ↦ rw t (join-Merges es m i j ri rj w hi hj ne root_i root_j (inl (pi, pj)))
    ]

merge_roots-Merges :
    (es : List Entity) (m : MergeMap) (i j ri rj : ℕ)
    → Built (length es) m
    → ri < length es
    → rj < length es
    → RootOf m i ri
    → RootOf m j rj
    → Merges es m i j (merge_roots es ri rj m)
unfolding merge_roots
merge_roots-Merges es m i j ri rj w hi hj (pi, root_i) (pj, root_j) =
    let (ei, qi) = entity_at_lem es ri hi in
    let (ej, qj) = entity_at_lem es rj hj in
    elim (Bool-cases (ri == rj)) [
      | inl t ↦ rw t (m, refl, w, kept refl (ri, pi, ground arith))
      | inr t ↦
          let ne : ri ≢ rj = ground arith in
          rw (t, qi, qj) (link-Merges es m i j ri rj ei ej w hi hj ne (pi, root_i) (pj, root_j))
    ]

-- Merging a pair of indices of entities succeeds, and the map stays one of roots.
pub merge_pair-Merges :
    (es : List Entity) (m : MergeMap) (i j : ℕ)
    → Built (length es) m
    → i < length es
    → j < length es
    → Merges es m i j (merge_pair es (i, j) m)
unfolding merge_pair
merge_pair-Merges es m i j w hi hj =
    let (ri, root_i, li) = root_lem w i in
    let (rj, root_j, lj) = root_lem w j in
    rw (root_i.0, root_j.0) (merge_roots-Merges es m i j ri rj w (li hi) (lj hj) root_i root_j)

module _ (m : MergeMap) (i j : ℕ) where
  -- indices under one root stay together
  pub SameRoot-keep : (m' : MergeMap) (x y : ℕ) → Joins m i j m' → SameRoot m x y → SameRoot m' x y
  SameRoot-keep m' x y (kept e _) s = rw e s
  SameRoot-keep m' x y (joined a b e ne ra rb _) (r, px, py) =
      rw e
        (if r == a then b else r, root-join m a b x r ne ra rb px, root-join m a b y r ne ra rb py)

  -- the pair's indices are together
  pub SameRoot-pair : (m' : MergeMap) → Joins m i j m' → SameRoot m' i j
  SameRoot-pair m' (kept e s) = rw e s
  SameRoot-pair m' (joined a b e ne ra rb (inl (pi, pj))) = rw e (
    b,
    root-join m a b i a ne ra rb pi ∙ ground arith,
    root-join m a b j b ne ra rb pj ∙ ground arith,
  )
  SameRoot-pair m' (joined a b e ne ra rb (inr (pi, pj))) = rw e (
    b,
    root-join m a b i b ne ra rb pi ∙ ground arith,
    root-join m a b j a ne ra rb pj ∙ ground arith,
  )

  module _ (ps : List (ℕ × ℕ)) where
    -- the two roots of a pair are linked by it
    across :
        (a b x y : ℕ)
        → ((root m i ≡ some a) × (root m j ≡ some b)) ⊎ ((root m i ≡ some b) × (root m j ≡ some a))
        → root m x ≡ some a
        → root m y ≡ some b
        → Linked (SameRoot m) ((i, j) ∷ ps) x y
    across a b x y (inl (pi, pj)) px py =
        chain (base (a, px, pi)) (chain (pair first) (base (b, pj, py)))
    across a b x y (inr (pi, pj)) px py =
        chain (base (a, px, pj)) (chain (back (pair first)) (base (b, pi, py)))

    -- what is together after a pair was linked by it before
    pub SameRoot-joined :
        (n : ℕ) (m' : MergeMap) (x y : ℕ)
        → Built n m
        → Joins m i j m'
        → SameRoot m' x y
        → Linked (SameRoot m) ((i, j) ∷ ps) x y
    SameRoot-joined n m' x y w (kept e _) (r, px, py) = base (r, ground arith, ground arith)
    SameRoot-joined n m' x y w (joined a b e ne ra rb sides) (r, px, py) =
        let (rx, root_x, _) = root_lem w x in
        let (ry, root_y, _) = root_lem w y in
        let ex = root-join m a b x rx ne ra rb root_x.0 in
        let ey = root-join m a b y ry ne ra rb root_y.0 in
        let eq : ◌≡◌ {A = ℕ} (if rx == a then b else rx) (if ry == a then b else ry) = cc in
        elim (Bool-cases (rx == a)) [
          | inl tx ↦ elim (Bool-cases (ry == a)) [
            | inl ty ↦ base (a, ground arith, ground arith)
            | inr ty ↦ across a b x y sides (ground arith) (ground arith)
          ]
          | inr tx ↦ elim (Bool-cases (ry == a)) [
            | inl ty ↦ back (across a b y x sides (ground arith) (ground arith))
            | inr ty ↦ base (rx, ground arith, ground arith)
          ]
        ]
