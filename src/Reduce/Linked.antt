-- ===== src/Reduce/Linked.antt =====
-- The entities that end under one root (app/ai/mrp/reducer.py): those that the merged pairs link.
use arkon.Base.{ℕ, ◌<◌, ◌≡◌, ◌↔◌, refl, ap, some, inl, inr, List, [], ◌∷◌, All, length, arith}
use arkon.Reduce.{MergeMap, Entity, merge_pairs}
use arkon.Reduce.Roots.{Built, start, root-start}
use arkon.Reduce.Joins.{
  later, In-cons, Linked, base, pair, back, chain, SameRoot, merge_pair-Merges, SameRoot-keep,
  SameRoot-pair, SameRoot-joined,
}

-- pairs of indices below n
abbrev pub Below : ℕ → List (ℕ × ℕ) → Type 0
Below n ps = All (λ (p : ℕ × ℕ). (p.0 < n) × (p.1 < n)) ps

-- After a list of pairs, indices are under one root exactly if those pairs link what was together.
abbrev pub Merged : List Entity → List (ℕ × ℕ) → MergeMap → Type 0
Merged es ps m =
    (m' : MergeMap) × (merge_pairs es ps m ≡ some m')
    × Built (length es) m'
    × ((x y : ℕ) → SameRoot m' x y ↔ Linked (SameRoot m) ps x y)

-- Links of a later state, as links of an earlier one.
Linked-pull :
    (R S : ℕ → ℕ → Type 0) (p : ℕ × ℕ) (ps : List (ℕ × ℕ))
    → ((x y : ℕ) → S x y → Linked R (p ∷ ps) x y)
    → {x y : ℕ} → Linked S ps x y
    → Linked R (p ∷ ps) x y
Linked-pull R S p ps f (base {x} {y} s) = f x y s
Linked-pull R S p ps f (pair q) = pair (later q)
Linked-pull R S p ps f (back l) = back (Linked-pull R S p ps f l)
Linked-pull R S p ps f (chain l k) = chain (Linked-pull R S p ps f l) (Linked-pull R S p ps f k)

Linked-push :
    (R S : ℕ → ℕ → Type 0) (i j : ℕ) (ps : List (ℕ × ℕ))
    → ((x y : ℕ) → R x y → S x y)
    → S i j
    → {x y : ℕ} → Linked R ((i, j) ∷ ps) x y
    → Linked S ps x y
Linked-push R S i j ps f s (base {x} {y} r) = base (f x y r)
Linked-push R S i j ps f s (pair q) = elim (In-cons q) [
  | inl e ↦ base (rw (ap (λ (p : ℕ × ℕ). p.0) e, ap (λ (p : ℕ × ℕ). p.1) e) s)
  | inr later_q ↦ pair later_q
]
Linked-push R S i j ps f s (back l) = back (Linked-push R S i j ps f s l)
Linked-push R S i j ps f s (chain l k) =
    chain (Linked-push R S i j ps f s l) (Linked-push R S i j ps f s k)

Linked-nil :
    (m : MergeMap) {x y : ℕ} (n : ℕ) → Built n m → Linked (SameRoot m) [] x y → SameRoot m x y
Linked-nil m n w (base s) = s
Linked-nil m n w (pair q) = elim q [ ]
Linked-nil m n w (back l) = let (r, px, py) = Linked-nil m n w l in (r, py, px)
Linked-nil m n w (chain l k) =
    let (r, px, py) = Linked-nil m n w l in
    let (q, qy, qz) = Linked-nil m n w k in (r, px, ground arith)

pub merge_pairs-Merged :
    (es : List Entity) (ps : List (ℕ × ℕ)) (m : MergeMap)
    → Built (length es) m
    → Below (length es) ps
    → Merged es ps m
unfolding merge_pairs
merge_pairs-Merged es [] m w below = (m, refl, w, λ x y. (λ s. base s, Linked-nil m (length es) w))
merge_pairs-Merged es ((i, j) ∷ ps) m w ((hi, hj), below) =
    let (m1, e1, w1, step) = merge_pair-Merges es m i j w hi hj in
    let (m2, e2, w2, iff) = merge_pairs-Merged es ps m1 w1 below in
    (
      m2,
      rw e1 e2,
      w2,
      λ x y. (
        λ s.
            Linked-pull (SameRoot m) (SameRoot m1) (i, j) ps
              (λ u v t. SameRoot-joined m i j ps (length es) m1 u v w step t) ((iff x y).0 s),
        λ l. (iff x y).1 (
            Linked-push (SameRoot m) (SameRoot m1) i j ps
              (λ u v t. SameRoot-keep m i j m1 u v step t) (SameRoot-pair m i j m1 step) l),
      ),
    )

Linked-map :
    (R S : ℕ → ℕ → Type 0) (ps : List (ℕ × ℕ))
    → ((x y : ℕ) → R x y → S x y)
    → {x y : ℕ} → Linked R ps x y
    → Linked S ps x y
Linked-map R S ps f (base {x} {y} r) = base (f x y r)
Linked-map R S ps f (pair q) = pair q
Linked-map R S ps f (back l) = back (Linked-map R S ps f l)
Linked-map R S ps f (chain l k) = chain (Linked-map R S ps f l) (Linked-map R S ps f k)

SameRoot-nil : (x y : ℕ) → SameRoot [] x y ↔ (x ≡ y)
SameRoot-nil x y =
    let ex = (root-start x).0 in
    let ey = (root-start y).0 in (λ (r, px, py). cc, λ e. (x, ex, ground arith))

-- Merging pairs of indices of the entities ends with no error, and two entities are then under one
-- root exactly if the pairs link them: the roots are the classes of the equivalence that the pairs
-- generate, whatever the mentions say on who goes into whom.
pub merge_pairs-Linked :
    (es : List Entity) (ps : List (ℕ × ℕ))
    → Below (length es) ps
    → (m : MergeMap) × (merge_pairs es ps [] ≡ some m)
      × ((x y : ℕ) → SameRoot m x y ↔ Linked (λ a b. a ≡ b) ps x y)
merge_pairs-Linked es ps below =
    let (m, e, w, iff) = merge_pairs-Merged es ps [] start below in
    (
      m,
      e,
      λ x y. (
        λ s. Linked-map _ _ ps (λ u v. (SameRoot-nil u v).0) ((iff x y).0 s),
        λ l. (iff x y).1 (Linked-map _ _ ps (λ u v. (SameRoot-nil u v).1) l),
      ),
    )
