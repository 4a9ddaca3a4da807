-- ===== src/Reduce.antt =====
-- The merging of entities in the reduce phase: steps 2.3 and 2.4 of app/ai/mrp/reducer.py. What the
-- similarity of two names decides, and the answers of the language model, are parameters.
pub mod Roots
pub mod Joins
pub mod Linked
pub mod Apply
pub mod Totals
pub mod Phase
mod Examples
use arkon.Base.{
  ℕ, zero, suc, ◌+◌, String, Bool, true, false, not, ◌&&◌, Option, none, some, List, [], ◌∷◌, ◌++◌,
  length, elem, str_elem, leb, ◌==◌, str_eq, if◌then◌else◌,
}

-- A canonical entity, as `exact_dedup_entities` makes it.
pub record Entity : Type 0 where
  pub name : String
  pub entity_type : String
  pub aliases : List String
  pub mention_count : ℕ
  pub absolute_offsets : List ℕ

-- `None` here is a run that never ends, or an index out of range.
infixl 5 ◌>>=◌
abbrev pub ◌>>=◌ {ℓ κ} : {A : Type ℓ} {B : Type κ} → Option A → (A → Option B) → Option B
none >>= f = none
some a >>= f = f a

-- `merged_into`: an assignment goes in front, and hides an older one of the same key.
abbrev pub MergeMap : Type 0
MergeMap = List (ℕ × ℕ)

unfoldable pub merged : ℕ → MergeMap → Option ℕ
merged i [] = none
merged i ((k, v) ∷ m) = let rest = merged i m in if k == i then some v else rest

-- `_root`, with fuel for the rounds of its loop
unfoldable pub root_loop : ℕ → MergeMap → ℕ → Option ℕ
root_loop zero m i = none
root_loop (suc fuel) m i = elim (merged i m) [ none ↦ some i | some p ↦ root_loop fuel m p ]

-- A chain visits no key twice, so there are no more rounds than keys, and the last one.
unfoldable pub root : MergeMap → ℕ → Option ℕ
root m i = root_loop (suc (length m)) m i

unfoldable pub entity_at : List Entity → ℕ → Option Entity
entity_at [] i = none
entity_at (e ∷ es) zero = some e
entity_at (e ∷ es) (suc i) = entity_at es i

-- the assignment for two roots: the one with fewer mentions goes into the other
unfoldable pub link : ℕ → ℕ → Entity → Entity → MergeMap → MergeMap
link ri rj ei ej m = (if leb ej.mention_count ei.mention_count then (rj, ri) else (ri, rj)) ∷ m

-- the body of the loops over pairs
unfoldable pub merge_roots : List Entity → ℕ → ℕ → MergeMap → Option MergeMap
merge_roots es ri rj m =
    if ri == rj
    then some m
    else do ei ← entity_at es ri; ej ← entity_at es rj; some (link ri rj ei ej m)

unfoldable pub merge_pair : List Entity → ℕ × ℕ → MergeMap → Option MergeMap
merge_pair es (i, j) m = do ri ← root m i; rj ← root m j; merge_roots es ri rj m

unfoldable pub merge_pairs : List Entity → List (ℕ × ℕ) → MergeMap → Option MergeMap
merge_pairs es [] m = some m
merge_pairs es (p ∷ ps) m = do m' ← merge_pair es p m; merge_pairs es ps m'

-- What the cosine of two vectors is against the two thresholds.
pub data Verdict : Type 0 where
  same : Verdict
  ambiguous : Verdict
  different : Verdict

abbrev pub is_same : Verdict → Bool
is_same same = true
is_same _ = false

abbrev pub is_ambiguous : Verdict → Bool
is_ambiguous ambiguous = true
is_ambiguous _ = false

-- the pairs (i, j) for the later entities, from j on, of the same type and with a verdict that passes
unfoldable pub pairs_of : (ℕ → ℕ → Bool) → ℕ → Entity → ℕ → List Entity → List (ℕ × ℕ)
pairs_of test i ei j [] = []
pairs_of test i ei j (ej ∷ es) =
    let rest = pairs_of test i ei (j + 1) es in
    if str_eq ei.entity_type ej.entity_type && test i j then (i, j) ∷ rest else rest

-- the two loops over i and j
unfoldable pub pairs_from : (ℕ → ℕ → Bool) → ℕ → List Entity → List (ℕ × ℕ)
pairs_from test i [] = []
pairs_from test i (e ∷ es) = pairs_of test i e (i + 1) es ++ pairs_from test (i + 1) es

-- `_root(i) != _root(j)`
unfoldable pub apart : MergeMap → ℕ × ℕ → Option Bool
apart m (i, j) = do ri ← root m i; rj ← root m j; some (not (ri == rj))

unfoldable pub still_apart : MergeMap → List (ℕ × ℕ) → Option (List (ℕ × ℕ))
still_apart m [] = some []
still_apart m (p ∷ ps) = do
  b ← apart m p
  rest ← still_apart m ps
  some (if b then p ∷ rest else rest)

-- `embedding_dedup_entities`, once the vectors are there: the map and the ambiguous pairs
unfoldable pub embedding_dedup_entities :
    (ℕ → ℕ → Verdict) → List Entity → Option (MergeMap × List (ℕ × ℕ))
embedding_dedup_entities verdict es = do
  m ← merge_pairs es (pairs_from (λ i j. is_same (verdict i j)) 0 es) []
  ps ← still_apart m (pairs_from (λ i j. is_ambiguous (verdict i j)) 0 es)
  some (m, ps)

-- the pairs with a true answer; answers that are missing are false
unfoldable pub confirmed : List Bool → List (ℕ × ℕ) → List (ℕ × ℕ)
confirmed ds [] = []
confirmed [] (p ∷ ps) = []
confirmed (d ∷ ds) (p ∷ ps) = let rest = confirmed ds ps in if d then p ∷ rest else rest

-- `resolve_ambiguous_entities`; no answers stand for a call that failed
unfoldable pub resolve_ambiguous_entities :
    List Entity → List (ℕ × ℕ) → Option (List Bool) → MergeMap → Option MergeMap
resolve_ambiguous_entities es ps none m = some m
resolve_ambiguous_entities es ps (some decisions) m = merge_pairs es (confirmed decisions ps) m
