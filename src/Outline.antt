-- ===== src/Outline.antt =====
-- The outline of a source: app/services/source_outline.py. Characters are the code points of a
-- string, and what the pattern of the headings finds on a page is taken as it is: a list of headings.
pub mod Pages
pub mod Tree
pub mod Nesting
pub mod Search
mod Examples
use Prim.Native.String.{count, ◌++◌ as str_append}
use arkon.Base.{
  ℕ, zero, suc, ◌+◌, ◌-◌, String, Bool, true, false, ◌&&◌, Option, none, some, List, [], ◌∷◌, ◌++◌,
  length, leb, ltb, if◌then◌else◌, text_or_empty,
}

-- PAGE_JOIN_SEPARATOR
abbrev pub page_join_separator : String
page_join_separator = "\n\n"

-- the text and the offsets that `assemble_full_text` gives, from a cursor on
unfoldable pub offsets_from : ℕ → List String → List ℕ
offsets_from cursor [] = []
offsets_from cursor (c ∷ []) = cursor ∷ []
offsets_from cursor (c ∷ d ∷ cs) =
    cursor ∷ offsets_from (cursor + count c + count page_join_separator) (d ∷ cs)

-- `PAGE_JOIN_SEPARATOR.join`
unfoldable pub join : List String → String
join [] = ""
join (c ∷ []) = c
join (c ∷ d ∷ cs) = str_append c (str_append page_join_separator (join (d ∷ cs)))

unfoldable pub assemble_full_text : List String → String × List ℕ
assemble_full_text contents = (join contents, offsets_from 0 contents)

unfoldable pub str_drop : ℕ → String → String
str_drop zero s = s
str_drop (suc n) String.[] = ""
str_drop (suc n) (String.◌∷◌ c s) = str_drop n s

unfoldable pub str_take : ℕ → String → String
str_take zero s = ""
str_take (suc n) String.[] = ""
str_take (suc n) (String.◌∷◌ c s) = String.◌∷◌ c (str_take n s)

-- `full_text[start:end]`
unfoldable pub slice : String → ℕ → ℕ → String
slice s start end = str_take (end - start) (str_drop start s)

unfoldable pub nth : List ℕ → ℕ → Option ℕ
nth [] n = none
nth (x ∷ xs) zero = some x
nth (x ∷ xs) (suc n) = nth xs n

-- the end of the page with that index
abbrev pub page_end : String → Option ℕ → ℕ
page_end full_text none = count full_text
page_end full_text (some next) = next - count page_join_separator

-- The page with that number, from 1; none is dropped.
unfoldable pub slice_page : String → List ℕ → ℕ → Option String
slice_page full_text offsets zero = none
slice_page full_text offsets (suc idx) = elim (nth offsets idx) [
  | none ↦ none
  | some start ↦ some (slice full_text start (page_end full_text (nth offsets (suc idx))))
]

unfoldable pub slice_pages_by_range : String → List ℕ → List ℕ → List (ℕ × String)
slice_pages_by_range full_text offsets [] = []
slice_pages_by_range full_text offsets (pn ∷ pns) =
    let rest = slice_pages_by_range full_text offsets pns in
    elim (slice_page full_text offsets pn) [ none ↦ rest | some content ↦ (pn, content) ∷ rest ]

-- A heading: an entry of `flat`.
pub record Heading : Type 0 where
  pub title : String
  pub level : ℕ
  pub page : ℕ
  pub char_start : ℕ
  pub char_end : ℕ

-- `flat[i + 1]["char_start"] if i + 1 < len(flat) else total_len`
unfoldable pub set_ends : ℕ → List Heading → List Heading
set_ends total_len [] = []
set_ends total_len (h ∷ []) = record h { char_end = total_len } ∷ []
set_ends total_len (h ∷ k ∷ hs) = record h { char_end = k.char_start } ∷ set_ends total_len (k ∷ hs)

-- A node of the tree and its children.
mutual
  pub data Node : Type 0 where
    node : Heading → Forest → Node

  pub data Forest : Type 0 where
    empty : Forest
    tree : Node → Forest → Forest

unfoldable pub add_last : Forest → Node → Forest
add_last empty n = tree n empty
add_last (tree m ms) n = tree m (add_last ms n)

-- The stack with the nodes that can still get children, the last one first, over the roots. In the
-- program a node is linked to its parent when it is pushed and gets children while it is there; here
-- it is linked when it is popped, complete: between the two it is its parent's last child.
pub data Stack : Type 0 where
  roots : Forest → Stack
  open_node : Heading → Forest → Stack → Stack

-- a popped node goes to the children of the one below, or to the roots; then the loop goes on
unfoldable pub pop_with : ℕ → Node → Stack → Stack
pop_with level n (roots f) = roots (add_last f n)
pop_with level n (open_node h f s) =
    let popped = pop_with level (node h (add_last f n)) s in
    if leb level h.level then popped else open_node h (add_last f n) s

-- `while stack and stack[-1]["level"] >= node["level"]: stack.pop()`
unfoldable pub pop_to : ℕ → Stack → Stack
pop_to level (roots f) = roots f
pop_to level (open_node h f s) =
    let popped = pop_with level (node h f) s in
    if leb level h.level then popped else open_node h f s

-- `stack.append(node)`
unfoldable pub push : Heading → Stack → Stack
push h s = open_node h empty (pop_to h.level s)

unfoldable pub push_all : List Heading → Stack → Stack
push_all [] s = s
push_all (h ∷ hs) s = push_all hs (push h s)

-- what is still open at the end
unfoldable pub close_with : Node → Stack → Forest
close_with n (roots f) = add_last f n
close_with n (open_node h f s) = close_with (node h (add_last f n)) s

unfoldable pub close : Stack → Forest
close (roots f) = f
close (open_node h f s) = close_with (node h f) s

-- `build_outline`, from the headings found and the length of the text
unfoldable pub build_outline : ℕ → List Heading → Forest
build_outline total_len found = close (push_all (set_ends total_len found) (roots empty))

-- `flatten_outline`
mutual
  pub flatten_node : Node → List Heading
  flatten_node (node h f) = h ∷ flatten_outline f

  pub flatten_outline : Forest → List Heading
  flatten_outline empty = []
  flatten_outline (tree n f) = flatten_node n ++ flatten_outline f

-- `char_start` and `char_end` of a node of the stored outline, if it has them
pub record Span : Type 0 where
  pub char_start : Option ℕ
  pub char_end : Option ℕ

-- the size of the span, if it holds the offset
abbrev pub size_at : ℕ → Option ℕ → Option ℕ → Option ℕ
size_at offset (some start) (some end) =
    if leb start offset && ltb offset end then some (end - start) else none
size_at offset _ _ = none

-- the best node so far with its size; `none` is the infinite size
unfoldable pub better : Span → Option ℕ → Option (Span × ℕ) → Option (Span × ℕ)
better n none best = best
better n (some size) none = some (n, size)
better n (some size) (some (m, best_size)) =
    if ltb size best_size then some (n, size) else some (m, best_size)

unfoldable pub find_loop : ℕ → Option (Span × ℕ) → List Span → Option (Span × ℕ)
find_loop offset best [] = best
find_loop offset best (n ∷ ns) =
    find_loop offset (better n (size_at offset n.char_start n.char_end) best) ns

unfoldable pub find_smallest_node_containing : List Span → ℕ → Option Span
find_smallest_node_containing flat offset = elim (find_loop offset none flat) [
  | none ↦ none
  | some (n, size) ↦ some n
]
