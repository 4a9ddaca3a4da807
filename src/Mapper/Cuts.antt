-- ===== src/Mapper/Cuts.antt =====
-- A text cut into the bodies of chunks (app/ai/mrp/mapper.py).
use Prim.Native.String.{count, ◌++◌ as str_append}
use text.Mathlib.TextLemmas.{nil-append, cons-append, length-cons as count-cons}
use arkon.Base.{ℕ, zero, suc, ◌+◌, ◌-◌, ◌≤◌, ◌≡◌, refl, sym, ap, ◌∙◌, String, List, [], ◌∷◌, arith}
use arkon.Outline.{str_drop, str_take, slice}
use arkon.Outline.Pages.{str_drop-append}
use arkon.Mapper.{DocumentChunk, chunk_of}

str_take-nil : (m : ℕ) → str_take m "" ≡ ""
unfolding str_take
str_take-nil zero = refl
str_take-nil (suc m) = refl

str_drop-nil : (m : ℕ) → str_drop m "" ≡ ""
unfolding str_drop
str_drop-nil zero = refl
str_drop-nil (suc m) = refl

str_drop-add : (m k : ℕ) (s : String) → str_drop (m + k) s ≡ str_drop k (str_drop m s)
unfolding str_drop
str_drop-add zero k s = let z : ◌≡◌ {A = ℕ} (0 + k) k = omega arith in rw z refl
str_drop-add (suc m) k String.[] = str_drop-nil (suc m + k) ∙ sym (str_drop-nil k)
str_drop-add (suc m) k (String.◌∷◌ c s) =
    let e : ◌≡◌ {A = ℕ} (suc m + k) (suc (m + k)) = omega arith in rw e (str_drop-add m k s)

str_take-add :
    (m k : ℕ) (s : String)
    → str_append (str_take m s) (str_take k (str_drop m s)) ≡ str_take (m + k) s
unfolding str_take str_drop
str_take-add zero k s =
    let z : ◌≡◌ {A = ℕ} (0 + k) k = omega arith in rw z (nil-append (str_take k s))
str_take-add (suc m) k String.[] =
    nil-append (str_take k "") ∙ str_take-nil k ∙ sym (str_take-nil (suc m + k))
str_take-add (suc m) k (String.◌∷◌ c s) =
    let e : ◌≡◌ {A = ℕ} (suc m + k) (suc (m + k)) = omega arith in
    rw (e, cons-append c (str_take m s) (str_take k (str_drop m s)))
      (ap (String.◌∷◌ c) (str_take-add m k s))

-- two pieces that meet
pub slice-slice :
    (s : String) (a e b : ℕ) → a ≤ e → e ≤ b → str_append (slice s a e) (slice s e b) ≡ slice s a b
unfolding slice
slice-slice s a e b h k =
    let d : ◌≡◌ {A = ℕ} (a + (e - a)) e = omega arith in
    let l : ◌≡◌ {A = ℕ} ((e - a) + (b - e)) (b - a) = omega arith in
    let shift = sym (str_drop-add a (e - a) s) ∙ ap (λ x. str_drop x s) d in
    ap (λ x. str_append (str_take (e - a) (str_drop a s)) (str_take (b - e) x)) (sym shift)
    ∙ str_take-add (e - a) (b - e) (str_drop a s)
    ∙ ap (λ x. str_take x (str_drop a s)) l

str_take-all : (s : String) → str_take (count s) s ≡ s
unfolding str_take
str_take-all String.[] = refl
str_take-all (String.◌∷◌ c s) = rw (count-cons c s) (ap (String.◌∷◌ c) (str_take-all s))

pub slice_self : (s : String) → slice s 0 (count s) ≡ s
unfolding slice str_drop
slice_self s = let z : ◌≡◌ {A = ℕ} (count s - 0) (count s) = omega arith in rw z (str_take-all s)

pub slice-empty : (s : String) (a : ℕ) → slice s a a ≡ ""
unfolding slice str_take
slice-empty s a = let z : ◌≡◌ {A = ℕ} (a - a) 0 = omega arith in rw z refl

-- the text of a chunk after its prefix
abbrev pub body : DocumentChunk → String
body c = str_drop c.overlap_prefix_len c.text

abbrev pub bodies : List DocumentChunk → String
bodies [] = ""
bodies (c ∷ cs) = str_append (body c) (bodies cs)

-- The chunks follow one another from `a` to `b`, and the body of each is its part of the text.
pub data Cuts (full_text : String) (b : ℕ) : ℕ → List DocumentChunk → Type 0 where
  finish : {a : ℕ} → a ≡ b → Cuts full_text b a []
  cut :
      {a : ℕ} (c : DocumentChunk) {cs : List DocumentChunk}
      → c.start_char ≡ a
      → a ≤ c.end_char
      → body c ≡ slice full_text a c.end_char
      → Cuts full_text b c.end_char cs
      → Cuts full_text b a (c ∷ cs)

pub body-chunk_of :
    (full_text : String) (idx start end : ℕ) (path prefix : String)
    → body (chunk_of full_text idx start end path prefix) ≡ slice full_text start end
body-chunk_of full_text idx start end path prefix =
    str_drop-append prefix (slice full_text start end)

Cuts-le : {t : String} {b a : ℕ} {cs : List DocumentChunk} → Cuts t b a cs → a ≤ b
Cuts-le (finish e) = omega (arith, e)
Cuts-le (cut c e le _ rest) = omega (arith, Cuts-le rest)

-- The bodies of chunks that follow one another are the part of the text from the first to the last.
pub bodies-Cuts :
    {t : String} {b a : ℕ} {cs : List DocumentChunk} → Cuts t b a cs → bodies cs ≡ slice t a b
bodies-Cuts {t} {b} {a} (finish e) = rw e (sym (slice-empty t b))
bodies-Cuts {t} {b} {a} (cut c {cs} e le same rest) =
    ap (λ x. str_append x (bodies cs)) same
    ∙ ap (str_append (slice t a c.end_char)) (bodies-Cuts rest)
    ∙ slice-slice t a c.end_char b le (Cuts-le rest)
