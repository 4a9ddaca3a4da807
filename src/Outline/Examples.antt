-- ===== src/Outline/Examples.antt =====
-- The theorems on outlines for a source of three pages.
use arkon.Base.{ℕ, ◌≡◌, refl, String, none, some, List, [], ◌∷◌}
use arkon.Outline.{
  Heading, empty, tree, node, build_outline, flatten_outline, set_ends, assemble_full_text,
  slice_pages_by_range, Span, push_all, push, pop_to, pop_with, close, close_with, add_last,
}
use arkon.Outline.Nesting.{NestedForest, build_outline-NestedForest}
use arkon.Outline.Tree.{flatten_outline-build_outline}
use arkon.Outline.Pages.{slice_pages_by_range-assemble_full_text}

abbrev heading : String → ℕ → ℕ → Heading
heading title level start = record {
  title = title;
  level = level;
  page = 1;
  char_start = start;
  char_end = 0;
}

abbrev found : List Heading
found = heading "A" 1 0 ∷ heading "A.1" 2 10 ∷ heading "A.1.1" 3 20 ∷ heading "B" 1 30 ∷ []

flatten_outline-build_outline_example : flatten_outline (build_outline 40 found) ≡ set_ends 40 found
flatten_outline-build_outline_example = flatten_outline-build_outline 40 found

-- "B" closes the three headings before it
nested :
    build_outline 40 found
    ≡ tree
        (node
          (record { title = "A"; level = 1; page = 1; char_start = 0; char_end = 10 })
          (tree
            (node
              (record { title = "A.1"; level = 2; page = 1; char_start = 10; char_end = 20 })
              (tree
                (node
                  (record { title = "A.1.1"; level = 3; page = 1; char_start = 20; char_end = 30 })
                  empty)
                empty))
            empty))
        (tree
          (node (record { title = "B"; level = 1; page = 1; char_start = 30; char_end = 40 }) empty)
          empty)
unfolding build_outline set_ends push_all push pop_to pop_with close close_with add_last
nested = refl

abbrev contents : List String
contents = "one" ∷ "" ∷ "three" ∷ []

slice_pages_by_range-assemble_full_text_example :
    slice_pages_by_range
      (assemble_full_text contents).0
      (assemble_full_text contents).1
      (3 ∷ 0 ∷ 9 ∷ 1 ∷ [])
    ≡ (3, "three") ∷ (1, "one") ∷ []
slice_pages_by_range-assemble_full_text_example =
    slice_pages_by_range-assemble_full_text contents (3 ∷ 0 ∷ 9 ∷ 1 ∷ [])

abbrev spans : List Span
spans =
    record { char_start = some 0; char_end = some 40 }
    ∷ record { char_start = some 10; char_end = some 20 }
    ∷ record { char_start = none; char_end = some 20 }
    ∷ []

build_outline-NestedForest_example : NestedForest 0 (build_outline 40 found)
build_outline-NestedForest_example = build_outline-NestedForest 40 found refl
