-- ===== src/Reduce/Phase.antt =====
-- Steps 2.3 and 2.4 of `run_reduce_phase` (app/ai/mrp/reducer.py) in one: the pairs, the merges, the
-- answers and the final list of entities.
use arkon.Base.{
  ℕ, ◌+◌, ◌<◌, ◌≤◌, ◌≡◌, refl, Bool, true, false, ◌&&◌, Option, none, some, Bool-cases, inl, inr,
  List, [], ◌∷◌, ◌++◌, length, ltb, ◌==◌, str_eq, if◌then◌else◌, arith,
}
use arkon.Reduce.{
  MergeMap, Entity, ◌>>=◌, Verdict, is_same, is_ambiguous, pairs_of, pairs_from, apart, still_apart,
  embedding_dedup_entities, confirmed, resolve_ambiguous_entities,
}
use arkon.Reduce.Roots.{Built, start, root_lem}
use arkon.Reduce.Linked.{Below, merge_pairs-Merged}
use arkon.Reduce.Apply.{apply_merges}
use arkon.Reduce.Totals.{total_mentions, apply_merges-mentions}

-- What the two services give: the verdicts on pairs of entities, or nothing if there are no
-- embeddings, and the answers to the ambiguous pairs, or nothing if the call failed.
pub record Services : Type 0 where
  pub verdict : Option (ℕ → ℕ → Verdict)
  pub answers : List (ℕ × ℕ) → Option (List Bool)

unfoldable pub merge_by :
    (List (ℕ × ℕ) → Option (List Bool)) → (ℕ → ℕ → Verdict) → List Entity → Option (List Entity)
merge_by answers verdict es = do
  found ← embedding_dedup_entities verdict es
  m ← resolve_ambiguous_entities es found.1 (answers found.1) found.0
  apply_merges es m

-- the entities after the steps; a single one is left as it is
unfoldable pub dedup_entities : Services → List Entity → Option (List Entity)
dedup_entities s es =
    if ltb 1 (length es)
    then elim s.verdict [ none ↦ some es | some verdict ↦ merge_by s.answers verdict es ]
    else some es

Below-append : (n : ℕ) (ps qs : List (ℕ × ℕ)) → Below n ps → Below n qs → Below n (ps ++ qs)
Below-append n [] qs h k = k
Below-append n (p ∷ ps) qs (h, hs) k = (h, Below-append n ps qs hs k)

Below-pairs_of :
    (n : ℕ) (test : ℕ → ℕ → Bool) (i : ℕ) (ei : Entity) (j : ℕ) (es : List Entity)
    → i < n
    → j + length es ≤ n
    → Below n (pairs_of test i ei j es)
unfolding pairs_of
Below-pairs_of n test i ei j [] hi hj = tt
Below-pairs_of n test i ei j (e ∷ es) hi hj =
    let rest = Below-pairs_of n test i ei (j + 1) es hi (omega arith) in
    elim (Bool-cases (str_eq ei.entity_type e.entity_type && test i j)) [
      | inl t ↦ rw t ((hi, omega arith), rest)
      | inr t ↦ rw t rest
    ]

Below-pairs_from :
    (n : ℕ) (test : ℕ → ℕ → Bool) (i : ℕ) (es : List Entity)
    → i + length es ≤ n
    → Below n (pairs_from test i es)
unfolding pairs_from
Below-pairs_from n test i [] h = tt
Below-pairs_from n test i (e ∷ es) h =
    Below-append n _ _ (Below-pairs_of n test i e (i + 1) es (omega arith) (omega arith))
      (Below-pairs_from n test (i + 1) es (omega arith))

Below-confirmed :
    (n : ℕ) (ds : List Bool) (ps : List (ℕ × ℕ)) → Below n ps → Below n (confirmed ds ps)
unfolding confirmed
Below-confirmed n ds [] h = tt
Below-confirmed n [] (p ∷ ps) h = tt
Below-confirmed n (true ∷ ds) (p ∷ ps) (h, hs) = (h, Below-confirmed n ds ps hs)
Below-confirmed n (false ∷ ds) (p ∷ ps) (h, hs) = Below-confirmed n ds ps hs

-- Every pair has its roots, so the ambiguous pairs are sorted out, and stay in range.
still_apart_lem :
    (n : ℕ) (m : MergeMap) (ps : List (ℕ × ℕ))
    → Built n m
    → Below n ps
    → (qs : List (ℕ × ℕ)) × (still_apart m ps ≡ some qs) × Below n qs
unfolding still_apart apart
still_apart_lem n m [] w h = ([], refl, tt)
still_apart_lem n m ((i, j) ∷ ps) w (h, hs) =
    let (ri, (ei, _), _) = root_lem w i in
    let (rj, (ej, _), _) = root_lem w j in
    let (qs, e, below) = still_apart_lem n m ps w hs in
    elim (Bool-cases (ri == rj)) [
      | inl t ↦ (qs, rw (ei, ej, e, t) refl, below)
      | inr t ↦ ((i, j) ∷ qs, rw (ei, ej, e, t) refl, (h, below))
    ]

-- the merges of the answers, on top of those of the embeddings
resolve_lem :
    (es : List Entity) (ps : List (ℕ × ℕ)) (answers : Option (List Bool)) (m : MergeMap)
    → Built (length es) m
    → Below (length es) ps
    → (m' : MergeMap) × (resolve_ambiguous_entities es ps answers m ≡ some m')
      × Built (length es) m'
unfolding resolve_ambiguous_entities
resolve_lem es ps none m w h = (m, refl, w)
resolve_lem es ps (some ds) m w h =
    let (m', e, w', _) = merge_pairs-Merged es (confirmed ds ps) m w (Below-confirmed _ ds ps h) in
    (m', e, w')

-- what the steps promise
abbrev pub Keeps : List Entity → Option (List Entity) → Type 0
Keeps es outcome =
    (result : List Entity) × (outcome ≡ some result) × (total_mentions result ≡ total_mentions es)

merge_by-Keeps :
    (answers : List (ℕ × ℕ) → Option (List Bool)) (verdict : ℕ → ℕ → Verdict) (es : List Entity)
    → Keeps es (merge_by answers verdict es)
unfolding merge_by embedding_dedup_entities
merge_by-Keeps answers verdict es =
    let found = λ (test : ℕ → ℕ → Bool). Below-pairs_from (length es) test 0 es (omega arith) in
    let (m, e, w, _) =
      merge_pairs-Merged es (pairs_from (λ i j. is_same (verdict i j)) 0 es) [] start
        (found (λ i j. is_same (verdict i j))) in
    let (qs, e', below) =
      still_apart_lem (length es) m (pairs_from (λ i j. is_ambiguous (verdict i j)) 0 es) w
        (found (λ i j. is_ambiguous (verdict i j))) in
    let (m', e'', w') = resolve_lem es qs (answers qs) m w below in
    rw (e, e', e'') (apply_merges-mentions es m' w')

-- Whatever the embeddings say of the pairs of entities, and whatever the language model answers, the
-- deduplication ends with a list of entities, with no index out of range, and the mentions of the
-- entities in it are as many in all as before.
pub dedup_entities-mentions :
    (s : Services) (es : List Entity)
    → (result : List Entity) × (dedup_entities s es ≡ some result)
      × (total_mentions result ≡ total_mentions es)
unfolding dedup_entities
dedup_entities-mentions s es = elim (Bool-cases (ltb 1 (length es))) [
  | inl t ↦ rw t (by_verdict s.verdict)
  | inr t ↦ rw t (es, refl, refl)
]
  where
    by_verdict :
        (v : Option (ℕ → ℕ → Verdict))
        → Keeps es (elim v [ none ↦ some es | some verdict ↦ merge_by s.answers verdict es ])
    by_verdict none = (es, refl, refl)
    by_verdict (some verdict) = merge_by-Keeps s.answers verdict es
