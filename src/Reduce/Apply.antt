-- ===== src/Reduce/Apply.antt =====
-- `_apply_merges` of app/ai/mrp/reducer.py: the final list of entities. A set of indices is listed
-- without repetition, in no order that matters; of aliases, only membership is read.
use arkon.Base.{
  suc, ℕ, ◌+◌, Bool, not, ◌&&◌, Option, some, List, [], ◌∷◌, ◌++◌, elem, ◌==◌, if◌then◌else◌, map,
}
use arkon.Reduce.{Entity, ◌>>=◌, MergeMap, root, entity_at}

-- an entity, its index, and the root of the index
pub record Rooted : Type 0 where
  pub index : ℕ
  pub root_index : ℕ
  pub entity : Entity

-- `_root(i)` for every entity, from an index on
unfoldable pub rooted_from : MergeMap → ℕ → List Entity → Option (List Rooted)
rooted_from m k [] = some []
rooted_from m k (e ∷ es) = do
  r ← root m k
  rest ← rooted_from m (suc k) es
  some (record { index = k; root_index = r; entity = e } ∷ rest)

-- `set(…)` of the roots
unfoldable pub distinct : List ℕ → List ℕ
distinct [] = []
distinct (x ∷ xs) = let rest = distinct xs in if elem x rest then rest else x ∷ rest

-- the canonical entity takes over one that was merged into it
unfoldable pub absorb : Entity → Entity → Entity
absorb c e = record c {
  mention_count = c.mention_count + e.mention_count;
  aliases = c.aliases ++ (e.aliases ++ e.name ∷ []);
  absolute_offsets = c.absolute_offsets ++ e.absolute_offsets;
}

-- `i != ri and _root(i) == ri`
abbrev pub is_other : ℕ → Rooted → Bool
is_other ri x = not (x.index == ri) && x.root_index == ri

unfoldable pub absorb_all : ℕ → Entity → List Rooted → Entity
absorb_all ri c [] = c
absorb_all ri c (x ∷ xs) = absorb_all ri (if is_other ri x then absorb c x.entity else c) xs

-- the loop over the roots
unfoldable pub canonicals : List Entity → List Rooted → List ℕ → Option (List Entity)
canonicals es rs [] = some []
canonicals es rs (ri ∷ roots) = do
  c ← entity_at es ri
  rest ← canonicals es rs roots
  some (absorb_all ri c rs ∷ rest)

unfoldable pub apply_merges : List Entity → MergeMap → Option (List Entity)
apply_merges es m = do
  rs ← rooted_from m 0 es
  canonicals es rs (distinct (map (λ x. x.root_index) rs))
