-- ===== src/Outline/Pages.antt =====
-- Pages cut out of the full text of a source (app/services/source_outline.py).
use Prim.Native.String.{count, ◌++◌ as str_append}
use text.Mathlib.TextLemmas.{
  nil-append, cons-append, append-nil, append_assoc, length-cons as count-cons,
  length-append as count-append,
}
use arkon.Base.{
  ℕ, zero, suc, ◌+◌, ◌-◌, ◌≡◌, refl, sym, ◌∙◌, ap, String, Option, none, some, Option-cases, inl,
  inr, List, [], ◌∷◌, arith,
}
use arkon.Outline.{
  page_join_separator, offsets_from, join, assemble_full_text, str_drop, str_take, slice, nth,
  slice_page, slice_pages_by_range,
}

pub str_drop-append : (a b : String) → str_drop (count a) (str_append a b) ≡ b
unfolding str_drop
str_drop-append String.[] b = nil-append b
str_drop-append (String.◌∷◌ c s) b = rw (count-cons c s, cons-append c s b) (str_drop-append s b)

str_take-append : (a b : String) → str_take (count a) (str_append a b) ≡ a
unfolding str_take
str_take-append String.[] b = refl
str_take-append (String.◌∷◌ c s) b =
    rw (count-cons c s, cons-append c s b) (ap (String.◌∷◌ c) (str_take-append s b))

-- a middle part of a text
slice-append :
    (pre a post : String) (end : ℕ)
    → end ≡ count pre + count a
    → slice (str_append pre (str_append a post)) (count pre) end ≡ a
unfolding slice
slice-append pre a post end e =
    let len : end - count pre ≡ count a = omega (arith, e) in
    rw (len, str_drop-append pre (str_append a post)) (str_take-append a post)

slice-end :
    (pre a : String) (end : ℕ)
    → end ≡ count pre + count a
    → slice (str_append pre a) (count pre) end ≡ a
slice-end pre a end e =
    ap (λ x. slice (str_append pre x) (count pre) end) (sym (append-nil a))
    ∙ slice-append pre a "" end e

-- The content of the page with that index.
abbrev pub nth_content : List String → ℕ → Option String
nth_content [] n = none
nth_content (c ∷ cs) zero = some c
nth_content (c ∷ cs) (suc n) = nth_content cs n

nth-offsets_from :
    (cursor : ℕ) (c : String) (cs : List String)
    → nth (offsets_from cursor (c ∷ cs)) 0 ≡ some cursor
unfolding nth offsets_from
nth-offsets_from cursor c [] = refl
nth-offsets_from cursor c (d ∷ cs) = refl

slice_page_lem :
    (pre : String) (cursor : ℕ) (cs : List String) (idx : ℕ)
    → cursor ≡ count pre
    → slice_page (str_append pre (join cs)) (offsets_from cursor cs) (suc idx) ≡ nth_content cs idx
unfolding slice_page offsets_from nth join
slice_page_lem pre cursor [] idx e = refl
slice_page_lem pre cursor (c ∷ []) zero e =
    rw e (ap some (slice-end pre c (count (str_append pre c)) (count-append pre c)))
slice_page_lem pre cursor (c ∷ []) (suc idx) e = refl
slice_page_lem pre cursor (c ∷ d ∷ cs) zero e =
    rw (nth-offsets_from (cursor + count c + 2) d cs, e)
      (ap some
        (slice-append pre c (str_append page_join_separator (join (d ∷ cs))) _ (omega arith)))
slice_page_lem pre cursor (c ∷ d ∷ cs) (suc idx) e =
    let next = cursor + count c + count page_join_separator in
    let front = str_append pre (str_append c page_join_separator) in
    let rest = join (d ∷ cs) in
    let text : str_append pre (str_append c (str_append page_join_separator rest))
        ≡ str_append front rest =
      sym (
        append_assoc pre (str_append c page_join_separator) rest
        ∙ ap (str_append pre) (append_assoc c page_join_separator rest)) in
    let counted = count-append pre (str_append c page_join_separator) in
    let counted' = count-append c page_join_separator in
    ap (λ t. slice_page t (offsets_from next (d ∷ cs)) (suc idx)) text
    ∙ slice_page_lem front next (d ∷ cs) idx (omega (arith, e, counted, counted'))

slice_page-zero : (t : String) (os : List ℕ) → slice_page t os 0 ≡ none
unfolding slice_page
slice_page-zero t os = refl

-- The pages asked for that there are, with their own contents.
abbrev pub pages_of : List String → List ℕ → List (ℕ × String)
pages_of contents [] = []
pages_of contents (zero ∷ pns) = pages_of contents pns
pages_of contents (suc idx ∷ pns) =
    let rest = pages_of contents pns in
    elim (nth_content contents idx) [ none ↦ rest | some content ↦ (suc idx, content) ∷ rest ]

-- Slicing pages out of the assembled text gives back exactly their contents, in the order asked for;
-- the numbers out of range are dropped.
pub slice_pages_by_range-assemble_full_text :
    (contents : List String) (page_numbers : List ℕ)
    → slice_pages_by_range
        (assemble_full_text contents).0
        (assemble_full_text contents).1
        page_numbers
      ≡ pages_of contents page_numbers
unfolding slice_pages_by_range assemble_full_text
slice_pages_by_range-assemble_full_text contents [] = refl
slice_pages_by_range-assemble_full_text contents (zero ∷ pns) =
    rw (slice_pages_by_range, slice_page-zero (join contents) (offsets_from 0 contents))
      (slice_pages_by_range-assemble_full_text contents pns)
slice_pages_by_range-assemble_full_text contents (suc idx ∷ pns) =
    let here : slice_page (join contents) (offsets_from 0 contents) (suc idx)
        ≡ nth_content contents idx =
      ap (λ t. slice_page t (offsets_from 0 contents) (suc idx)) (sym (nil-append (join contents)))
      ∙ slice_page_lem "" 0 contents idx refl in
    let rest = slice_pages_by_range-assemble_full_text contents pns in
    elim (Option-cases (nth_content contents idx)) [
      | inl a ↦ rw (slice_pages_by_range, here, pages_of, a) rest
      | inr (content, a) ↦
          rw (slice_pages_by_range, here, pages_of, a) (ap (λ x. (suc idx, content) ∷ x) rest)
    ]
