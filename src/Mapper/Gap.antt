-- ===== src/Mapper/Gap.antt =====
-- A part of a text that no chunk has (`build_chunks` of app/ai/mrp/mapper.py, over the outline of
-- app/services/source_outline.py, in which a section ends at the next heading of any level).
use Prim.Native.String.{count}
use arkon.Base.{
  ℕ, ◌+◌, ◌-◌, ◌≤◌, ◌<◌, ◌≡◌, ◌⊎◌, ap, ◌∙◌, String, true, some, inl, inr, List, [], ◌∷◌, All, arith,
}
use arkon.Outline.{Heading, set_ends, build_outline}
use arkon.Outline.Tree.{flatten_outline-build_outline}
use arkon.Mapper.{
  DocumentChunk, flush, insert_heading, sort_headings, top_nodes, is_over, next_group, flushed,
  first_group, build_chunks,
}
use arkon.Mapper.Sections.{section_loop-over, section_loop-last, build_chunks-top}

-- with the end that the outline sets
abbrev ended : Heading → ℕ → Heading
ended h end = record h { char_end = end }

top_nodes-gap :
    (n : ℕ) (h k l : Heading)
    → h.level ≤ 2
    → 2 < k.level
    → l.level ≤ 2
    → h.char_start ≤ l.char_start
    → top_nodes (build_outline n (h ∷ k ∷ l ∷ [])) ≡ ended h k.char_start ∷ ended l n ∷ []
unfolding top_nodes set_ends sort_headings insert_heading
top_nodes-gap n h k l main sub main' le =
    rw (flatten_outline-build_outline n (h ∷ k ∷ l ∷ [])) (ground arith)

-- For a text with exactly three headings in its order, a main one (of level 1 or 2), one of level 3 or
-- more and another main one, whose two main sections without the text between them do not fit into
-- one chunk: `build_chunks` ends with chunks each of which ends before the subsection in the middle or
-- begins after it, so its text is in the range of none.
pub build_chunks-gap :
    (full_text : String) (target : ℕ) (h k l : Heading)
    → h.level ≤ 2
    → 2 < k.level
    → l.level ≤ 2
    → h.char_start < k.char_start
    → k.char_start < l.char_start
    → l.char_start ≤ count full_text
    → target < (k.char_start - h.char_start) + (count full_text - l.char_start)
    → (chunks : List DocumentChunk) × (build_chunks full_text
          (build_outline (count full_text) (h ∷ k ∷ l ∷ []))
          target
        ≡ some chunks)
      × All (λ c. (c.end_char ≤ k.char_start) ⊎ (l.char_start ≤ c.start_char)) chunks
unfolding flush
build_chunks-gap t target h k l main sub main' hk kl ln over =
    let top = top_nodes-gap (count t) h k l main sub main' (omega arith) in
    let g = first_group t (ended h k.char_start) in
    let is : is_over t target g (ended l (count t)) ≡ true = ground arith in
    let last = ended l (count t) in
    let next = next_group t g last in
    (
      flushed t g g.current_end ∷ flushed t next (count t) ∷ [],
      build_chunks-top t _ target (ended h k.char_start) (last ∷ []) top
          ∙ ap some (
              section_loop-over t target last [] g is
              ∙ ap (λ cs. flushed t g g.current_end ∷ cs) (section_loop-last t target next)),
      (inl (omega arith), (inr (omega arith), tt)),
    )
