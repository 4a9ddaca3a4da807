-- ===== src/Outline/Search.antt =====
-- `find_smallest_node_containing` of app/services/source_outline.py.
use arkon.Base.{
  ℕ, ◌≡◌, refl, Bool, true, false, Option, none, some, List, [], ◌∷◌, all, leb, ltb, arith,
  Bool-cases, inl, inr,
}
use arkon.Outline.{Span, size_at, better, find_loop, find_smallest_node_containing}

abbrev pub span_size : ℕ → Span → Option ℕ
span_size offset n = size_at offset n.char_start n.char_end

-- a size is no larger than another; `none` is no size, larger than all
abbrev pub no_larger : Option ℕ → Option ℕ → Bool
no_larger k none = true
no_larger none (some j) = false
no_larger (some k) (some j) = leb k j

abbrev best_size : Option (Span × ℕ) → Option ℕ
best_size none = none
best_size (some (n, size)) = some size

no_larger_trans :
    (a b c : Option ℕ) → no_larger a b ≡ true → no_larger b c ≡ true → no_larger a c ≡ true
no_larger_trans a b none h k = refl
no_larger_trans a none (some z) h k = absurd (cc k)
no_larger_trans none (some y) (some z) h k = absurd (cc h)
no_larger_trans (some x) (some y) (some z) h k = ground arith

better-old :
    (n : Span) (o : Option ℕ) (best : Option (Span × ℕ))
    → no_larger (best_size (better n o best)) (best_size best) ≡ true
unfolding better
better-old n none none = refl
better-old n none (some (m, b)) = ground arith
better-old n (some size) none = refl
better-old n (some size) (some (m, b)) = elim (Bool-cases (ltb size b)) [
  | inl e ↦ rw e (ground arith)
  | inr e ↦ rw e (ground arith)
]

better-new :
    (n : Span) (o : Option ℕ) (best : Option (Span × ℕ))
    → no_larger (best_size (better n o best)) o ≡ true
unfolding better
better-new n none best = refl
better-new n (some size) none = ground arith
better-new n (some size) (some (m, b)) = elim (Bool-cases (ltb size b)) [
  | inl e ↦ rw e (ground arith)
  | inr e ↦ rw e (ground arith)
]

loop-best :
    (offset : ℕ) (best : Option (Span × ℕ)) (ns : List Span)
    → no_larger (best_size (find_loop offset best ns)) (best_size best) ≡ true
unfolding find_loop
loop-best offset none [] = refl
loop-best offset (some (n, k)) [] = ground arith
loop-best offset best (n ∷ ns) =
    no_larger_trans (best_size (find_loop offset (better n (span_size offset n) best) ns))
      (best_size (better n (span_size offset n) best)) (best_size best)
      (loop-best offset (better n (span_size offset n) best) ns)
      (better-old n (span_size offset n) best)

loop-all :
    (offset : ℕ) (best : Option (Span × ℕ)) (ns : List Span)
    → all (λ m. no_larger (best_size (find_loop offset best ns)) (span_size offset m)) ns ≡ true
unfolding find_loop
loop-all offset best [] = refl
loop-all offset best (n ∷ ns) =
    let best' = better n (span_size offset n) best in
    let here =
      no_larger_trans (best_size (find_loop offset best' ns)) (best_size best') (span_size offset n)
        (loop-best offset best' ns) (better-new n (span_size offset n) best) in
    rw here (loop-all offset best' ns)

-- the best span has its size
abbrev Sound : ℕ → Option (Span × ℕ) → Type 0
Sound offset none = Unit
Sound offset (some (n, size)) = span_size offset n ≡ some size

better-Sound :
    (offset : ℕ) (n : Span) (o : Option ℕ) (best : Option (Span × ℕ))
    → span_size offset n ≡ o
    → Sound offset best
    → Sound offset (better n o best)
unfolding better
better-Sound offset n none best e s = s
better-Sound offset n (some size) none e s = e
better-Sound offset n (some size) (some (m, b)) e s = elim (Bool-cases (ltb size b)) [
  | inl p ↦ rw p e
  | inr p ↦ rw p s
]

loop-Sound :
    (offset : ℕ) (best : Option (Span × ℕ)) (ns : List Span)
    → Sound offset best
    → Sound offset (find_loop offset best ns)
unfolding find_loop
loop-Sound offset best [] s = s
loop-Sound offset best (n ∷ ns) s =
    loop-Sound offset (better n (span_size offset n) best) ns
      (better-Sound offset n (span_size offset n) best refl s)

-- the size at the offset of the node that was found
abbrev pub found_size : ℕ → Option Span → Option ℕ
found_size offset none = none
found_size offset (some n) = span_size offset n

found_lem :
    (offset : ℕ) (flat : List Span) (r : Option (Span × ℕ))
    → find_loop offset none flat ≡ r
    → Sound offset r
    → found_size offset (find_smallest_node_containing flat offset) ≡ best_size r
unfolding find_smallest_node_containing
found_lem offset flat none e s = rw (find_smallest_node_containing, e) refl
found_lem offset flat (some (n, size)) e s = rw (find_smallest_node_containing, e) s

-- The node that is found holds the offset and is no larger than any node that does; when none is
-- found, no node does.
pub find_smallest_node_containing_lem :
    (flat : List Span) (offset : ℕ)
    → all
        (λ m.
          no_larger
            (found_size offset (find_smallest_node_containing flat offset))
            (span_size offset m))
        flat
      ≡ true
find_smallest_node_containing_lem flat offset =
    rw (found_lem offset flat (find_loop offset none flat) refl (loop-Sound offset none flat tt))
      (loop-all offset none flat)
