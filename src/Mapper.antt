-- ===== src/Mapper.antt =====
-- The chunks of a document: triage and chunking of app/ai/mrp/mapper.py. A document is its text, and
-- the outline is the one that app/services/source_outline.py builds.
pub mod Cuts
pub mod Windows
pub mod Sections
pub mod Gap
mod Examples
use Prim.Native.String.{count, ◌++◌ as str_append}
use arkon.Base.{
  ℕ, zero, suc, ◌+◌, ◌-◌, String, Bool, true, false, ◌&&◌, Option, none, some, List, [], ◌∷◌, ◌++◌,
  keep, length, leb, ltb, if◌then◌else◌, min, max,
}
use arkon.Contribution.Effects.{decimal}
use arkon.Outline.{slice, Heading, Forest, flatten_outline}

abbrev pub chunk_target_chars : ℕ
chunk_target_chars = 20000

abbrev pub overlap_chars : ℕ
overlap_chars = 1000

-- OVERLAP_SEPARATOR
abbrev pub overlap_separator : String
overlap_separator = "[…context from previous section…]\n"

pub record DocumentChunk : Type 0 where
  pub index : ℕ
  pub start_char : ℕ
  pub end_char : ℕ
  pub section_path : String
  pub text : String
  pub overlap_prefix_len : ℕ

-- `classify_strategy`
unfoldable pub classify_strategy : String → String
classify_strategy full_text =
    let n = count full_text in
    if ltb n 30000 then "single_pass" else if leb n 200000 then "standard" else "hierarchical"

unfoldable pub classify_pipeline_shape : String → String
classify_pipeline_shape full_text =
    let n = count full_text in
    if ltb n 8000
    then "stuff"
    else if ltb n 20000
    then "single_map"
    else if leb n 500000
    then "full_mrp"
    else "hierarchical"

-- the context from before `prev_end`
abbrev pub overlap_before : String → ℕ → String
overlap_before full_text prev_end =
    str_append overlap_separator
      (str_append (slice full_text (prev_end - overlap_chars) prev_end) "\n")

-- a chunk with a prefix
abbrev pub chunk_of : String → ℕ → ℕ → ℕ → String → String → DocumentChunk
chunk_of full_text idx start end section_path prefix = record {
  index = idx;
  start_char = start;
  end_char = end;
  section_path = section_path;
  text = str_append prefix (slice full_text start end);
  overlap_prefix_len = count prefix;
}

-- the prefix of a window
unfoldable pub window_prefix : String → ℕ → ℕ → String
window_prefix full_text idx prev_end =
    if ltb 0 idx && ltb 0 prev_end then overlap_before full_text prev_end else ""

-- The loop of `_sliding_window_chunks`, with fuel for its rounds; `none` means that it ran out.
unfoldable pub window_loop : ℕ → String → ℕ → ℕ → ℕ → ℕ → Option (List DocumentChunk)
window_loop zero full_text target idx pos prev_end = none
window_loop (suc fuel) full_text target idx pos prev_end =
    let end = min (pos + target) (count full_text) in
    let rest = window_loop fuel full_text target (idx + 1) end end in
    if ltb pos (count full_text)
    then elim rest [
      | none ↦ none
      | some chunks ↦ some (
          chunk_of full_text idx pos end (str_append "chunk_" (decimal idx))
            (window_prefix full_text idx prev_end)
          ∷ chunks)
    ]
    else some []

-- Each round advances by a character at least, so their number is at most the length, and one.
unfoldable pub sliding_window_chunks : String → ℕ → Option (List DocumentChunk)
sliding_window_chunks full_text target = window_loop (suc (count full_text)) full_text target 0 0 0

-- `" > ".join`
unfoldable pub join_path : List String → String
join_path [] = ""
join_path (s ∷ []) = s
join_path (s ∷ t ∷ ts) = str_append s (str_append " > " (join_path (t ∷ ts)))

abbrev pub section_path_of : ℕ → List String → String
section_path_of idx [] = str_append "chunk_" (decimal idx)
section_path_of idx (s ∷ ss) = join_path (s ∷ ss)

-- the prefix of a chunk of sections: none if the sections overlap
unfoldable pub section_prefix : String → ℕ → ℕ → ℕ → String
section_prefix full_text prev_body_end idx start =
    if ltb 0 idx && ltb start prev_body_end
    then ""
    else if ltb 0 idx && ltb 0 prev_body_end
    then overlap_before full_text prev_body_end
    else ""

-- `_flush`
unfoldable pub flush : String → ℕ → ℕ → ℕ → ℕ → List String → DocumentChunk
flush full_text prev_body_end idx start end sections =
    chunk_of full_text idx start end (section_path_of idx sections)
      (section_prefix full_text prev_body_end idx start)

-- the sort by `char_start`, which is stable
unfoldable pub insert_heading : Heading → List Heading → List Heading
insert_heading h [] = h ∷ []
insert_heading h (k ∷ ks) =
    let rest = insert_heading h ks in if leb h.char_start k.char_start then h ∷ k ∷ ks else k ∷ rest

unfoldable pub sort_headings : List Heading → List Heading
sort_headings [] = []
sort_headings (h ∷ hs) = insert_heading h (sort_headings hs)

-- `top_nodes`
unfoldable pub top_nodes : Forest → List Heading
top_nodes outline = sort_headings (keep (λ h. leb h.level 2) (flatten_outline outline))

-- The variables of the loop over the sections, once there is a current one.
pub record Grouping : Type 0 where
  pub idx : ℕ
  pub current_start : ℕ
  pub current_end : ℕ
  pub sections : List String
  pub prev_body_end : ℕ

abbrev pub section_end : String → Heading → ℕ
section_end full_text h = min h.char_end (count full_text)

-- whether the section starts a new chunk
abbrev pub is_over : String → ℕ → Grouping → Heading → Bool
is_over full_text target g h =
    ltb target ((g.current_end - g.current_start) + (section_end full_text h - h.char_start))
    && ltb 0 (g.current_end - g.current_start)

-- the group with the section after the chunk that is flushed
abbrev pub next_group : String → Grouping → Heading → Grouping
next_group full_text g h = record {
  idx = g.idx + 1;
  current_start = h.char_start;
  current_end = section_end full_text h;
  sections = h.title ∷ [];
  prev_body_end = g.current_end;
}

abbrev pub same_group : String → Grouping → Heading → Grouping
same_group full_text g h = record g {
  current_end = max g.current_end (section_end full_text h);
  sections = g.sections ++ h.title ∷ [];
}

abbrev pub flushed : String → Grouping → ℕ → DocumentChunk
flushed full_text g end = flush full_text g.prev_body_end g.idx g.current_start end g.sections

-- The rest of the loop: the last chunk goes to the end of the text.
unfoldable pub section_loop : String → ℕ → Grouping → List Heading → List DocumentChunk
section_loop full_text target g [] = flushed full_text g (count full_text) ∷ []
section_loop full_text target g (h ∷ hs) = elim (is_over full_text target g h) [
  | true ↦
      flushed full_text g g.current_end
      ∷ section_loop full_text target (next_group full_text g h) hs
  | false ↦ section_loop full_text target (same_group full_text g h) hs
]

-- `max(c.end_char for c in chunks)`
unfoldable pub last_covered : List DocumentChunk → ℕ
last_covered [] = 0
last_covered (c ∷ cs) = max c.end_char (last_covered cs)

-- the chunk for what the outline does not reach
unfoldable pub with_tail : String → List DocumentChunk → List DocumentChunk
with_tail full_text chunks =
    let covered = last_covered chunks in
    if ltb covered (count full_text - 100)
    then chunks
      ++ flush full_text covered (length chunks) covered (count full_text)
          (str_append "tail_" (decimal (length chunks)) ∷ [])
        ∷ []
    else chunks

abbrev pub first_group : String → Heading → Grouping
first_group full_text h = record {
  idx = 0;
  current_start = h.char_start;
  current_end = section_end full_text h;
  sections = h.title ∷ [];
  prev_body_end = 0;
}

-- `build_chunks`; the strategy is not read
unfoldable pub build_chunks : String → Forest → ℕ → Option (List DocumentChunk)
build_chunks full_text outline target = elim (top_nodes outline) [
  | [] ↦ sliding_window_chunks full_text target
  | h ∷ hs ↦ some (with_tail full_text (section_loop full_text target (first_group full_text h) hs))
]
