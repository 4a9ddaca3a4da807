-- ===== src/Mapper/Examples.antt =====
-- The theorems on chunks at short texts, and at an outline with a subsection.
use arkon.Base.{ℕ, ◌≤◌, ◌≡◌, ◌⊎◌, refl, some, List, [], ◌∷◌, All, arith}
use arkon.Outline.{slice, Heading, build_outline}
use arkon.Mapper.{DocumentChunk, sliding_window_chunks, build_chunks}
use arkon.Mapper.Cuts.{bodies}
use arkon.Mapper.Windows.{AtMost, sliding_window_chunks-bodies}
use arkon.Mapper.Sections.{build_chunks-bodies}
use arkon.Mapper.Gap.{build_chunks-gap}

abbrev heading : ℕ → ℕ → Heading
heading level start = record {
  title = "";
  level = level;
  page = 1;
  char_start = start;
  char_end = 0;
}

sliding_window_chunks-bodies_example :
    (chunks : List DocumentChunk) × (sliding_window_chunks "abcdefg" 3 ≡ some chunks)
    × (bodies chunks ≡ "abcdefg")
    × AtMost 3 chunks
sliding_window_chunks-bodies_example = sliding_window_chunks-bodies "abcdefg" 3 (omega arith)

build_chunks-bodies_example :
    (chunks : List DocumentChunk) × (build_chunks "abcdefghij"
        (build_outline 10 (heading 1 2 ∷ heading 2 5 ∷ []))
        4
      ≡ some chunks)
    × (bodies chunks ≡ slice "abcdefghij" 2 10)
build_chunks-bodies_example =
    build_chunks-bodies "abcdefghij" 4 (heading 1 2) (heading 2 5 ∷ []) refl (omega arith)

build_chunks-gap_example :
    (chunks : List DocumentChunk) × (build_chunks "abcdefghij"
        (build_outline 10 (heading 2 0 ∷ heading 3 1 ∷ heading 2 6 ∷ []))
        4
      ≡ some chunks)
    × All (λ c. (c.end_char ≤ 1) ⊎ (6 ≤ c.start_char)) chunks
build_chunks-gap_example =
    build_chunks-gap "abcdefghij" 4 (heading 2 0) (heading 3 1) (heading 2 6) (omega arith)
      (omega arith) (omega arith) (omega arith) (omega arith) (omega arith) (omega arith)
