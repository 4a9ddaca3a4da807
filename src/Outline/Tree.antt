-- ===== src/Outline/Tree.antt =====
-- The tree of `build_outline` of app/services/source_outline.py has the headings in their order.
use arkon.Base.{ℕ, ◌≡◌, refl, sym, ◌∙◌, ap, List, [], ◌∷◌, ◌++◌, leb, Bool-cases, inl, inr}
use mathlib.Core.List.{append_assoc, append-nil}
use arkon.Outline.{
  Heading, Node, node, Forest, empty, tree, Stack, roots, open_node, add_last, pop_with, pop_to,
  push, push_all, close_with, close, build_outline, set_ends, flatten_node, flatten_outline,
}

flatten_outline-add_last :
    (f : Forest) (n : Node) → flatten_outline (add_last f n) ≡ flatten_outline f ++ flatten_node n
unfolding add_last flatten_outline flatten_node
flatten_outline-add_last empty n = append-nil (flatten_node n)
flatten_outline-add_last (tree m f) n =
    ap (λ x. flatten_node m ++ x) (flatten_outline-add_last f n)
    ∙ sym (append_assoc (flatten_node m) (flatten_outline f) (flatten_node n))

-- the headings on the stack and below it, in order
abbrev listed : Stack → List Heading
listed (roots f) = flatten_outline f
listed (open_node h f s) = listed s ++ h ∷ flatten_outline f

-- a child linked to the top of the stack
listed-linked :
    (h : Heading) (f : Forest) (s : Stack) (n : Node)
    → listed (open_node h (add_last f n) s) ≡ listed (open_node h f s) ++ flatten_node n
listed-linked h f s n =
    ap (λ x. listed s ++ h ∷ x) (flatten_outline-add_last f n)
    ∙ sym (append_assoc (listed s) (h ∷ flatten_outline f) (flatten_node n))

listed-pop_with :
    (level : ℕ) (n : Node) (s : Stack) → listed (pop_with level n s) ≡ listed s ++ flatten_node n
unfolding pop_with flatten_node
listed-pop_with level n (roots f) = flatten_outline-add_last f n
listed-pop_with level n (open_node h f s) = elim (Bool-cases (leb level h.level)) [
  | inl e ↦ rw e (listed-pop_with level (node h (add_last f n)) s ∙ listed-linked h f s n)
  | inr e ↦ rw e (listed-linked h f s n)
]

listed-pop_to : (level : ℕ) (s : Stack) → listed (pop_to level s) ≡ listed s
unfolding pop_to flatten_node
listed-pop_to level (roots f) = refl
listed-pop_to level (open_node h f s) = elim (Bool-cases (leb level h.level)) [
  | inl e ↦ rw e (listed-pop_with level (node h f) s)
  | inr e ↦ rw e refl
]

listed-push_all : (hs : List Heading) (s : Stack) → listed (push_all hs s) ≡ listed s ++ hs
unfolding push_all push flatten_outline
listed-push_all [] s = sym (append-nil (listed s))
listed-push_all (h ∷ hs) s =
    listed-push_all hs (push h s)
    ∙ ap (λ x. (x ++ h ∷ []) ++ hs) (listed-pop_to h.level s)
    ∙ append_assoc (listed s) (h ∷ []) hs

flatten_outline-close_with :
    (n : Node) (s : Stack) → flatten_outline (close_with n s) ≡ listed s ++ flatten_node n
unfolding close_with flatten_node
flatten_outline-close_with n (roots f) = flatten_outline-add_last f n
flatten_outline-close_with n (open_node h f s) =
    flatten_outline-close_with (node h (add_last f n)) s ∙ listed-linked h f s n

flatten_outline-close : (s : Stack) → flatten_outline (close s) ≡ listed s
unfolding close flatten_node
flatten_outline-close (roots f) = refl
flatten_outline-close (open_node h f s) = flatten_outline-close_with (node h f) s

-- Flattening the outline of a source gives back its headings, in the order of the text, each ended
-- where the next begins: none is lost or moved by the tree.
pub flatten_outline-build_outline :
    (total_len : ℕ) (found : List Heading)
    → flatten_outline (build_outline total_len found) ≡ set_ends total_len found
unfolding build_outline set_ends flatten_outline
flatten_outline-build_outline total_len found =
    flatten_outline-close (push_all (set_ends total_len found) (roots empty))
    ∙ listed-push_all (set_ends total_len found) (roots empty)
