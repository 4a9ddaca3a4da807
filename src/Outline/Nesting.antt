-- ===== src/Outline/Nesting.antt =====
-- The tree of `build_outline` of app/services/source_outline.py: children are deeper than parents.
use arkon.Base.{
  ℕ, ◌≡◌, refl, Bool, true, List, [], ◌∷◌, leb, ◌<◌, arith, Bool-cases, inl, inr, all, all-cons,
}
use arkon.Outline.{
  Heading, Node, node, Forest, empty, tree, Stack, roots, open_node, add_last, pop_with, pop_to,
  push, push_all, close_with, close, build_outline, set_ends,
}

-- Every node is deeper than the level, and its children are deeper than it.
mutual
  pub NestedNode : ℕ → Node → Type 0
  NestedNode l (node h f) = (l < h.level) × NestedForest h.level f

  pub NestedForest : ℕ → Forest → Type 0
  NestedForest l empty = Unit
  NestedForest l (tree n f) = NestedNode l n × NestedForest l f

abbrev top : Stack → ℕ
top (roots f) = 0
top (open_node h f s) = h.level

abbrev NestedStack : Stack → Type 0
NestedStack (roots f) = NestedForest 0 f
NestedStack (open_node h f s) = (top s < h.level) × NestedForest h.level f × NestedStack s

NestedForest-add_last :
    (l : ℕ) (f : Forest) (n : Node)
    → NestedForest l f
    → NestedNode l n
    → NestedForest l (add_last f n)
unfolding add_last NestedForest
NestedForest-add_last l empty n d e = (e, tt)
NestedForest-add_last l (tree m f) n (c, d) e = (c, NestedForest-add_last l f n d e)

NestedStack-pop_with :
    (level : ℕ) (n : Node) (s : Stack)
    → NestedNode (top s) n
    → NestedStack s
    → NestedStack (pop_with level n s)
unfolding pop_with NestedNode
NestedStack-pop_with level n (roots f) e d = NestedForest-add_last 0 f n d e
NestedStack-pop_with level n (open_node h f s) e (t, d, r) =
    let more = NestedForest-add_last h.level f n d e in
    elim (Bool-cases (leb level h.level)) [
      | inl p ↦ rw p (NestedStack-pop_with level (node h (add_last f n)) s (t, more) r)
      | inr p ↦ rw p (t, more, r)
    ]

top-pop_with : (level : ℕ) (n : Node) (s : Stack) → 0 < level → top (pop_with level n s) < level
unfolding pop_with
top-pop_with level n (roots f) e = e
top-pop_with level n (open_node h f s) e = elim (Bool-cases (leb level h.level)) [
  | inl p ↦ rw p (top-pop_with level (node h (add_last f n)) s e)
  | inr p ↦ rw p (ground arith)
]

NestedStack-pop_to : (level : ℕ) (s : Stack) → NestedStack s → NestedStack (pop_to level s)
unfolding pop_to NestedNode
NestedStack-pop_to level (roots f) d = d
NestedStack-pop_to level (open_node h f s) (t, d, r) = elim (Bool-cases (leb level h.level)) [
  | inl p ↦ rw p (NestedStack-pop_with level (node h f) s (t, d) r)
  | inr p ↦ rw p (t, d, r)
]

top-pop_to : (level : ℕ) (s : Stack) → 0 < level → top (pop_to level s) < level
unfolding pop_to
top-pop_to level (roots f) e = e
top-pop_to level (open_node h f s) e = elim (Bool-cases (leb level h.level)) [
  | inl p ↦ rw p (top-pop_with level (node h f) s e)
  | inr p ↦ rw p (ground arith)
]

abbrev pub is_level : Heading → Bool
is_level h = leb 1 h.level

NestedStack-push_all :
    (hs : List Heading) (s : Stack)
    → all is_level hs ≡ true
    → NestedStack s
    → NestedStack (push_all hs s)
unfolding push_all push NestedForest
NestedStack-push_all [] s a d = d
NestedStack-push_all (h ∷ hs) s a d =
    let (a1, a2) = all-cons is_level h hs a in
    NestedStack-push_all hs (push h s) a2
      (top-pop_to h.level s (ground arith), tt, NestedStack-pop_to h.level s d)

NestedForest-close_with :
    (n : Node) (s : Stack) → NestedNode (top s) n → NestedStack s → NestedForest 0 (close_with n s)
unfolding close_with NestedNode
NestedForest-close_with n (roots f) e d = NestedForest-add_last 0 f n d e
NestedForest-close_with n (open_node h f s) e (t, d, r) =
    NestedForest-close_with (node h (add_last f n)) s (t, NestedForest-add_last h.level f n d e) r

NestedForest-close : (s : Stack) → NestedStack s → NestedForest 0 (close s)
unfolding close NestedNode
NestedForest-close (roots f) d = d
NestedForest-close (open_node h f s) (t, d, r) = NestedForest-close_with (node h f) s (t, d) r

set_ends-levels :
    (total_len : ℕ) (hs : List Heading)
    → all is_level hs ≡ true
    → all is_level (set_ends total_len hs) ≡ true
unfolding set_ends
set_ends-levels total_len [] a = refl
set_ends-levels total_len (h ∷ []) a = ground arith
set_ends-levels total_len (h ∷ k ∷ hs) a =
    let (a1, a2) = all-cons is_level h (k ∷ hs) a in
    let rest = set_ends-levels total_len (k ∷ hs) a2 in rw (rest, a1) refl

-- When every heading has a level of at least 1, as the pattern of the headings gives it, each node of
-- the outline has a deeper level than the node that it is a child of.
pub build_outline-NestedForest :
    (total_len : ℕ) (found : List Heading)
    → all is_level found ≡ true
    → NestedForest 0 (build_outline total_len found)
unfolding build_outline NestedForest
build_outline-NestedForest total_len found a =
    NestedForest-close (push_all (set_ends total_len found) (roots empty)) (
      NestedStack-push_all (set_ends total_len found) (roots empty)
        (set_ends-levels total_len found a) tt)
