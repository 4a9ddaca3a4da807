-- ===== src/Notify/Recipients.antt =====
-- Whom `notify_many` notifies.
use arkon.Base.{
  ℕ, ◌≡◌, refl, ◌∙◌, Bool, false, not, ◌&&◌, Option, List, [], ◌∷◌, arith, elem, keep, keep-ext,
  keep-keep, ◌==◌, ==_iff, if◌then◌else◌, Bool-cases, inl, inr,
}
use arkon.Notify.{is_actor}

-- The ids in the order of their first occurrence, each once.
unfoldable pub dedup : List ℕ → List ℕ
dedup [] = []
dedup (x ∷ xs) = x ∷ keep (λ y. not (y == x)) (dedup xs)

-- What a fan-out promises: each id once, without the actor.
unfoldable pub targets : Option ℕ → List ℕ → List ℕ
targets actor rids = keep (λ r. not (is_actor actor r)) (dedup rids)

-- the ids that the loops of `notify_many` pick
unfoldable pub picked : Option ℕ → List ℕ → List ℕ → List ℕ
picked actor seen [] = []
picked actor seen (rid ∷ rids) =
    let skip = picked actor seen rids in
    let sent = rid ∷ picked actor (rid ∷ seen) rids in
    if elem rid seen then skip else if is_actor actor rid then skip else sent

abbrev is_open : Option ℕ → List ℕ → ℕ → Bool
is_open actor seen r = not (elem r seen) && not (is_actor actor r)

module _ (actor : Option ℕ) where
  keep-other :
      (seen : List ℕ) (rid : ℕ) (xs : List ℕ)
      → is_open actor seen rid ≡ false
      → keep (is_open actor seen) (keep (λ y. not (y == rid)) xs) ≡ keep (is_open actor seen) xs
  keep-other seen rid xs h =
      keep-keep (is_open actor seen) (λ y. not (y == rid)) xs
      ∙ keep-ext _ _ xs (λ x. elim (Bool-cases (x == rid)) [
        | inl e ↦ let same : x ≡ rid = (==_iff x rid).0 e in rw same (ground arith)
        | inr e ↦ rw e
      ])

  keep-sent :
      (seen : List ℕ) (rid : ℕ) (xs : List ℕ)
      → keep (is_open actor seen) (keep (λ y. not (y == rid)) xs)
        ≡ keep (is_open actor (rid ∷ seen)) xs
  keep-sent seen rid xs =
      keep-keep (is_open actor seen) (λ y. not (y == rid)) xs ∙ keep-ext _ _ xs (λ x. ground arith)

  picked-eq-keep :
      (seen rids : List ℕ) → picked actor seen rids ≡ keep (is_open actor seen) (dedup rids)
  unfolding picked dedup
  picked-eq-keep seen [] = refl
  picked-eq-keep seen (rid ∷ rids) = ground (
    arith,
    keep-other seen rid (dedup rids),
    keep-sent seen rid (dedup rids),
    picked-eq-keep seen rids,
    picked-eq-keep (rid ∷ seen) rids,
  )

  pub picked-eq-targets : (rids : List ℕ) → picked actor [] rids ≡ targets actor rids
  unfolding targets
  picked-eq-targets rids = picked-eq-keep [] rids
