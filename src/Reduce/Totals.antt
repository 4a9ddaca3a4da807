-- ===== src/Reduce/Totals.antt =====
-- What the final list of entities keeps (app/ai/mrp/reducer.py): every mention, and every name.
use arkon.Base.{
  ℕ, zero, suc, ◌+◌, ◌<◌, ◌≡◌, refl, ap, ◌∙◌, true, false, some, Bool-cases, inl, inr, List, [],
  ◌∷◌, All, map, elem, length, ◌==◌, ==_iff, if◌then◌else◌, arith,
}
use arkon.Reduce.{MergeMap, Entity, entity_at}
use arkon.Reduce.Roots.{Built, IsRoot, RootOf, root_lem, root_self}
use arkon.Reduce.Joins.{entity_at_lem}
use arkon.Reduce.Apply.{
  Rooted, rooted_from, distinct, absorb, is_other, absorb_all, canonicals, apply_merges,
}

-- all mentions
abbrev pub total_mentions : List Entity → ℕ
total_mentions [] = 0
total_mentions (e ∷ es) = e.mention_count + total_mentions es

-- the mentions of an entity if its root is `ri`
abbrev at_root : ℕ → Rooted → ℕ
at_root ri x = if x.root_index == ri then x.entity.mention_count else 0

abbrev full : ℕ → List Rooted → ℕ
full ri [] = 0
full ri (x ∷ xs) = at_root ri x + full ri xs

abbrev others : ℕ → List Rooted → ℕ
others ri [] = 0
others ri (x ∷ xs) = (if is_other ri x then x.entity.mention_count else 0) + others ri xs

absorb_all-mentions :
    (ri : ℕ) (c : Entity) (xs : List Rooted)
    → (absorb_all ri c xs).mention_count ≡ c.mention_count + others ri xs
unfolding absorb_all absorb
absorb_all-mentions ri c [] = omega arith
absorb_all-mentions ri c (x ∷ xs) =
    ground (arith, absorb_all-mentions ri (absorb c x.entity) xs, absorb_all-mentions ri c xs)

-- the entities in their places, from an index on, with their roots
data Places (m : MergeMap) : ℕ → List Entity → List Rooted → Type 0 where
  done : {k : ℕ} → Places m k [] []
  place :
      {k r : ℕ} {e : Entity} {es : List Entity} {rs : List Rooted}
      → RootOf m k r
      → Places m (suc k) es rs
      → Places m k (e ∷ es) (record { index = k; root_index = r; entity = e } ∷ rs)

-- before the first index there is no other
full-others :
    {m : MergeMap} (ri k : ℕ) {es : List Entity} {rs : List Rooted}
    → ri < k
    → Places m k es rs
    → full ri rs ≡ others ri rs
full-others ri k lt done = refl
full-others ri k lt (place is_root ps) = ground (arith, full-others ri (suc k) (omega arith) ps)

full-root :
    {m : MergeMap} (t k ri : ℕ) {es : List Entity} {rs : List Rooted} (e : Entity)
    → k + t ≡ ri
    → RootOf m ri ri
    → entity_at es t ≡ some e
    → Places m k es rs
    → full ri rs ≡ e.mention_count + others ri rs
unfolding entity_at
full-root t k ri e eq self h done = cc
full-root zero k ri e eq (self, _) h (place (is_root, _) ps) =
    let at : k ≡ ri = omega arith in
    let below = full-others ri (suc k) (omega arith) ps in ground arith
full-root (suc t) k ri e eq self h (place is_root ps) =
    let later = full-root t (suc k) ri e (omega arith) self h ps in ground arith

rooted_from-Places :
    (m : MergeMap) (n : ℕ)
    → Built n m
    → (k : ℕ) (es : List Entity)
    → (rs : List Rooted) × (rooted_from m k es ≡ some rs) × Places m k es rs
unfolding rooted_from
rooted_from-Places m n w k [] = ([], refl, done)
rooted_from-Places m n w k (e ∷ es) =
    let (r, is_root, _) = root_lem w k in
    let (rs, h, ps) = rooted_from-Places m n w (suc k) es in
    (
      record { index = k; root_index = r; entity = e } ∷ rs,
      rw (is_root.0, h) refl,
      place is_root ps,
    )

-- the mentions of `x`, once for each time that its root is listed
abbrev hits : Rooted → List ℕ → ℕ
hits x [] = 0
hits x (r ∷ rs) = at_root r x + hits x rs

abbrev full_sum : List ℕ → List Rooted → ℕ
full_sum [] xs = 0
full_sum (r ∷ rs) xs = full r xs + full_sum rs xs

full_sum-cons :
    (rs : List ℕ) (x : Rooted) (xs : List Rooted)
    → full_sum rs (x ∷ xs) ≡ hits x rs + full_sum rs xs
full_sum-cons [] x xs = omega arith
full_sum-cons (r ∷ rs) x xs = omega (arith, full_sum-cons rs x xs)

elem-distinct : (y : ℕ) (xs : List ℕ) → elem y (distinct xs) ≡ elem y xs
unfolding distinct
elem-distinct y [] = refl
elem-distinct y (x ∷ xs) = ground (arith, elem-distinct y xs)

hits-none : (x : Rooted) (rs : List ℕ) → elem x.root_index rs ≡ false → hits x rs ≡ 0
hits-none x [] h = refl
hits-none x (r ∷ rs) h = ground (arith, hits-none x rs)

-- Without repetition, a root that is listed is hit once.
hits-distinct :
    (x : Rooted) (rs : List ℕ)
    → elem x.root_index rs ≡ true
    → hits x (distinct rs) ≡ x.entity.mention_count
unfolding distinct
hits-distinct x [] h = cc
hits-distinct x (r ∷ rs) h =
    let same = elem-distinct r rs in
    let same_x = elem-distinct x.root_index rs in
    elim (Bool-cases (x.root_index == r)) [
      | inl t ↦
          let e = (==_iff x.root_index r).0 t in
          ground (arith, hits-none x (distinct rs), hits-distinct x rs)
      | inr t ↦ ground (arith, hits-distinct x rs)
    ]

-- every root that the entities have is listed
abbrev Covers : List ℕ → List Rooted → Type 0
Covers rs xs = All (λ x. elem x.root_index rs ≡ true) xs

entities : List Rooted → List Entity
entities xs = map (λ x. x.entity) xs

full_sum-nil : (rs : List ℕ) → full_sum rs [] ≡ 0
full_sum-nil [] = refl
full_sum-nil (r ∷ rs) = omega (arith, full_sum-nil rs)

full_sum-distinct :
    (rs : List ℕ) (xs : List Rooted)
    → Covers rs xs
    → full_sum (distinct rs) xs ≡ total_mentions (entities xs)
unfolding entities
full_sum-distinct rs [] c = full_sum-nil (distinct rs)
full_sum-distinct rs (x ∷ xs) (h, c) =
    omega (arith, full_sum-cons (distinct rs) x xs, hits-distinct x rs h, full_sum-distinct rs xs c)

entities-Places :
    {m : MergeMap} {k : ℕ} {es : List Entity} {rs : List Rooted}
    → Places m k es rs
    → entities rs ≡ es
unfolding entities
entities-Places done = refl
entities-Places (place {e} is_root ps) = ap (λ xs. e ∷ xs) (entities-Places ps)

abbrev root_indices : List Rooted → List ℕ
root_indices xs = map (λ x. x.root_index) xs

-- the roots of the places are roots, of entities that are there
abbrev AreRoots : ℕ → MergeMap → List ℕ → Type 0
AreRoots n m rs = All (λ r. IsRoot m r × (r < n)) rs

AreRoots-Places :
    (m : MergeMap) (n k : ℕ) (es : List Entity) (rs : List Rooted)
    → Built n m
    → k + length es ≡ n
    → Places m k es rs
    → AreRoots n m (root_indices rs)
AreRoots-Places m n k _ _ w h done = tt
AreRoots-Places m n k (e ∷ es) _ w h (place {r} (is_root, end) ps) =
    let (r', (is_root', _), lt) = root_lem w k in
    let below = lt (omega arith) in
    ((end, ground arith), AreRoots-Places m n (suc k) es _ w (omega arith) ps)

AreRoots-distinct :
    (n : ℕ) (m : MergeMap) (rs : List ℕ) → AreRoots n m rs → AreRoots n m (distinct rs)
unfolding distinct
AreRoots-distinct n m [] a = tt
AreRoots-distinct n m (r ∷ rs) (h, a) = elim (Bool-cases (elem r (distinct rs))) [
  | inl t ↦ rw t (AreRoots-distinct n m rs a)
  | inr t ↦ rw t (h, AreRoots-distinct n m rs a)
]

Covers-more : (r : ℕ) (rs : List ℕ) (xs : List Rooted) → Covers rs xs → Covers (r ∷ rs) xs
Covers-more r rs [] c = tt
Covers-more r rs (x ∷ xs) (h, c) = (ground arith, Covers-more r rs xs c)

Covers-self : (xs : List Rooted) → Covers (root_indices xs) xs
Covers-self [] = tt
Covers-self (x ∷ xs) =
    (ground arith, Covers-more x.root_index (root_indices xs) xs (Covers-self xs))

canonicals_lem :
    (m : MergeMap) (es : List Entity) (xs : List Rooted) (rs : List ℕ)
    → Places m 0 es xs
    → AreRoots (length es) m rs
    → (result : List Entity) × (canonicals es xs rs ≡ some result)
      × (total_mentions result ≡ full_sum rs xs)
unfolding canonicals
canonicals_lem m es xs [] ps a = ([], refl, refl)
canonicals_lem m es xs (r ∷ rs) ps ((is_root, lt), a) =
    let (c, h) = entity_at_lem es r lt in
    let (rest, eq, sum) = canonicals_lem m es xs rs ps a in
    let own = full-root r 0 r c (omega arith) (root_self m r is_root, is_root) h ps in
    (absorb_all r c xs ∷ rest, rw (h, eq) refl, omega (arith, absorb_all-mentions r c xs))

-- Applying a map of merged roots succeeds, and no mention is lost or counted twice.
pub apply_merges-mentions :
    (es : List Entity) (m : MergeMap)
    → Built (length es) m
    → (result : List Entity) × (apply_merges es m ≡ some result)
      × (total_mentions result ≡ total_mentions es)
unfolding apply_merges
apply_merges-mentions es m w =
    let (xs, h, ps) = rooted_from-Places m (length es) w 0 es in
    let rs = root_indices xs in
    let (result, eq, sum) =
      canonicals_lem m es xs (distinct rs) ps
        (AreRoots-distinct _ m rs (AreRoots-Places m _ 0 es xs w (omega arith) ps)) in
    (
      result,
      rw h eq,
      sum ∙ full_sum-distinct rs xs (Covers-self xs) ∙ ap total_mentions (entities-Places ps),
    )
