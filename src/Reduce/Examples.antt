-- ===== src/Reduce/Examples.antt =====
-- The theorems on merging at four entities, of which the first three are one.
use arkon.Base.{
  ℕ, ◌≡◌, ◌↔◌, refl, String, true, Option, none, some, List, [], ◌∷◌, ◌==◌, if◌then◌else◌, map,
  arith,
}
use arkon.Reduce.{
  MergeMap, Entity, Verdict, same, ambiguous, different, merge_pairs, merge_pair, root, root_loop,
  merged, merge_roots, entity_at, link, embedding_dedup_entities, pairs_from, pairs_of, still_apart,
  apart, resolve_ambiguous_entities, confirmed,
}
use arkon.Reduce.Apply.{apply_merges, absorb, absorb_all, canonicals, distinct, rooted_from}
use arkon.Reduce.Joins.{Linked, SameRoot}
use arkon.Reduce.Linked.{merge_pairs-Linked}
use arkon.Reduce.Totals.{total_mentions}
use arkon.Reduce.Phase.{Services, merge_by, dedup_entities, dedup_entities-mentions}

abbrev entity : String → ℕ → Entity
entity name mentions = record {
  name = name;
  entity_type = "org";
  aliases = [];
  mention_count = mentions;
  absolute_offsets = [];
}

abbrev four : List Entity
four = entity "Acme" 2 ∷ entity "ACME Corp" 5 ∷ entity "Acme Inc" 1 ∷ entity "Bolt" 3 ∷ []

-- the first two are the same, the next pair is in doubt
abbrev verdicts : ℕ → ℕ → Verdict
verdicts i j = if j == 1 then same else if j == 2 then ambiguous else different

abbrev services : Services
services = record { verdict = some verdicts; answers = λ ps. some (true ∷ []) }

merge_pairs-Linked_example :
    (m : MergeMap) × (merge_pairs four ((0, 1) ∷ (0, 2) ∷ []) [] ≡ some m)
    × ((x y : ℕ) → SameRoot m x y ↔ Linked (λ a b. a ≡ b) ((0, 1) ∷ (0, 2) ∷ []) x y)
merge_pairs-Linked_example = merge_pairs-Linked four ((0, 1) ∷ (0, 2) ∷ []) (omega arith)

dedup_entities-mentions_example :
    (result : List Entity) × (dedup_entities services four ≡ some result)
    × (total_mentions result ≡ total_mentions four)
dedup_entities-mentions_example = dedup_entities-mentions services four

merged_twice : merge_pairs four ((0, 1) ∷ (0, 2) ∷ []) [] ≡ some ((2, 1) ∷ (0, 1) ∷ [])
unfolding merge_pairs merge_pair root root_loop merged merge_roots entity_at link
merged_twice = refl

names : Option (List Entity) → List (String × ℕ)
names none = []
names (some es) = map (λ e. (e.name, e.mention_count)) es

deduped : names (dedup_entities services four) ≡ ("ACME Corp", 8) ∷ ("Bolt", 3) ∷ []
unfolding names dedup_entities merge_by embedding_dedup_entities pairs_from pairs_of still_apart
    apart resolve_ambiguous_entities confirmed apply_merges absorb absorb_all canonicals distinct
    rooted_from merge_pairs merge_pair root root_loop merged merge_roots entity_at link
deduped = refl
