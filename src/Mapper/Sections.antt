-- ===== src/Mapper/Sections.antt =====
-- The chunks of a text with an outline (`build_chunks` of app/ai/mrp/mapper.py).
use Prim.Native.String.{count}
use arkon.Base.{
  ℕ, ◌-◌, ◌≤◌, ◌≡◌, refl, sym, ap, String, Bool, true, false, some, Bool-cases, inl, inr, List, [],
  ◌∷◌, keep, all, ltb, leb, arith, min, max,
}
use mathlib.Core.Path.{subst}
use arkon.Outline.{slice, Heading, Forest, set_ends, build_outline}
use arkon.Outline.Tree.{flatten_outline-build_outline}
use arkon.Mapper.{
  DocumentChunk, section_path_of, section_prefix, flush, insert_heading, sort_headings, top_nodes,
  Grouping, section_end, is_over, next_group, same_group, flushed, section_loop, first_group,
  last_covered, with_tail, build_chunks,
}
use arkon.Mapper.Cuts.{body, bodies, Cuts, finish, cut, body-chunk_of, bodies-Cuts}

-- Each section begins where the one before it ends, the first one at `e`.
abbrev Meets : String → ℕ → List Heading → Type 0
Meets t e [] = Unit
Meets t e (h ∷ hs) =
    (h.char_start ≡ e) × (h.char_start ≤ section_end t h) × Meets t (section_end t h) hs

body-flushed :
    (t : String) (g : Grouping) (end : ℕ) → body (flushed t g end) ≡ slice t g.current_start end
unfolding flush
body-flushed t g end =
    body-chunk_of t g.idx g.current_start end (section_path_of g.idx g.sections)
      (section_prefix t g.prev_body_end g.idx g.current_start)

flushed-ends : (t : String) (g : Grouping) (end : ℕ) → (flushed t g end).end_char ≡ end
unfolding flush
flushed-ends t g end = refl

-- the two branches of the loop
pub section_loop-over :
    (t : String) (target : ℕ) (h : Heading) (hs : List Heading) (g : Grouping)
    → is_over t target g h ≡ true
    → section_loop t target g (h ∷ hs)
      ≡ flushed t g g.current_end ∷ section_loop t target (next_group t g h) hs
unfolding section_loop
section_loop-over t target h hs g over = rw (over, section_loop) refl

section_loop-fits :
    (t : String) (target : ℕ) (h : Heading) (hs : List Heading) (g : Grouping)
    → is_over t target g h ≡ false
    → section_loop t target g (h ∷ hs) ≡ section_loop t target (same_group t g h) hs
unfolding section_loop
section_loop-fits t target h hs g fits = rw (fits, section_loop) refl

pub section_loop-last :
    (t : String) (target : ℕ) (g : Grouping)
    → section_loop t target g [] ≡ flushed t g (count t) ∷ []
unfolding section_loop
section_loop-last t target g = refl

section_loop-Cuts :
    (t : String) (target : ℕ) (hs : List Heading) (g : Grouping)
    → g.current_start ≤ g.current_end
    → g.current_end ≤ count t
    → Meets t g.current_end hs
    → Cuts t (count t) g.current_start (section_loop t target g hs)
unfolding flush
section_loop-Cuts t target [] g le in_text meets =
    rw (section_loop-last t target g)
      (cut (flushed t g (count t)) refl (omega arith) (body-flushed t g (count t)) (finish refl))
section_loop-Cuts t target (h ∷ hs) g le in_text (at, up, meets) =
    elim (Bool-cases (is_over t target g h)) [
      | inl over ↦ rw (section_loop-over t target h hs g over) (
          cut (flushed t g g.current_end) refl le (body-flushed t g g.current_end) (
            subst (λ x. Cuts t (count t) x (section_loop t target (next_group t g h) hs)) at
              (section_loop-Cuts t target hs (next_group t g h) up (omega arith) meets)))
      | inr fits ↦
          let joined : max g.current_end (section_end t h) ≡ section_end t h = omega arith in
          rw (section_loop-fits t target h hs g fits) (
            section_loop-Cuts t target hs (same_group t g h) (omega arith) (omega arith)
              (rw joined meets))
    ]

-- The last chunk ends with the text, so there is no tail.
last_covered-section_loop :
    (t : String) (target : ℕ) (hs : List Heading) (g : Grouping)
    → count t ≤ last_covered (section_loop t target g hs)
unfolding flush last_covered
last_covered-section_loop t target [] g = rw (section_loop-last t target g) (omega arith)
last_covered-section_loop t target (h ∷ hs) g = elim (Bool-cases (is_over t target g h)) [
  | inl over ↦
      rw (section_loop-over t target h hs g over)
        (omega (arith, last_covered-section_loop t target hs (next_group t g h)))
  | inr fits ↦
      rw (section_loop-fits t target h hs g fits)
        (last_covered-section_loop t target hs (same_group t g h))
]

with_tail-section_loop :
    (t : String) (target : ℕ) (hs : List Heading) (g : Grouping)
    → with_tail t (section_loop t target g hs) ≡ section_loop t target g hs
unfolding with_tail
with_tail-section_loop t target hs g =
    let all_covered = last_covered-section_loop t target hs g in
    let no_tail : ltb (last_covered (section_loop t target g hs)) (count t - 100) ≡ false =
      ground arith in
    rw no_tail refl

-- headings in the order of the text, and inside it
abbrev pub Ascending : ℕ → List Heading → Type 0
Ascending n [] = Unit
Ascending n (h ∷ []) = h.char_start ≤ n
Ascending n (h ∷ k ∷ hs) = (h.char_start ≤ k.char_start) × Ascending n (k ∷ hs)

-- the main headings: of level 1 or 2
abbrev pub all_main : List Heading → Bool
all_main hs = all (λ h. leb h.level 2) hs

sort-set_ends :
    (n : ℕ) (hs : List Heading) → Ascending n hs → sort_headings (set_ends n hs) ≡ set_ends n hs
unfolding sort_headings insert_heading set_ends
sort-set_ends n [] a = refl
sort-set_ends n (h ∷ []) a = refl
sort-set_ends n (h ∷ k ∷ []) (le, a) = ground arith
sort-set_ends n (h ∷ k ∷ l ∷ hs) (le, a) = rw (sort-set_ends n (k ∷ l ∷ hs) a) (ground arith)

keep-set_ends :
    (n : ℕ) (hs : List Heading)
    → all_main hs ≡ true
    → keep (λ h. leb h.level 2) (set_ends n hs) ≡ set_ends n hs
unfolding set_ends
keep-set_ends n [] m = refl
keep-set_ends n (h ∷ []) m = ground arith
keep-set_ends n (h ∷ k ∷ hs) m = ground (arith, keep-set_ends n (k ∷ hs))

Ascending-le : (n : ℕ) (h : Heading) (hs : List Heading) → Ascending n (h ∷ hs) → h.char_start ≤ n
Ascending-le n h [] a = a
Ascending-le n h (k ∷ hs) (le, a) = omega (arith, Ascending-le n k hs a)

Meets-set_ends :
    (t : String) (e : ℕ) (h : Heading) (hs : List Heading)
    → Ascending (count t) (h ∷ hs)
    → h.char_start ≡ e
    → Meets t e (set_ends (count t) (h ∷ hs))
unfolding set_ends
Meets-set_ends t e h [] a at = (at, omega arith, tt)
Meets-set_ends t e h (k ∷ hs) (le, a) at =
    let in_text = Ascending-le (count t) k hs a in
    let reached : min k.char_start (count t) ≡ k.char_start = omega arith in
    (at, omega arith, Meets-set_ends t (min k.char_start (count t)) k hs a (sym reached))

top_nodes-build_outline :
    (n : ℕ) (hs : List Heading)
    → all_main hs ≡ true
    → Ascending n hs
    → top_nodes (build_outline n hs) ≡ set_ends n hs
unfolding top_nodes
top_nodes-build_outline n hs main a =
    rw (flatten_outline-build_outline n hs, keep-set_ends n hs main) (sort-set_ends n hs a)

pub build_chunks-top :
    (t : String) (outline : Forest) (target : ℕ) (h : Heading) (hs : List Heading)
    → top_nodes outline ≡ h ∷ hs
    → build_chunks t outline target ≡ some (section_loop t target (first_group t h) hs)
unfolding build_chunks
build_chunks-top t outline target h hs e =
    rw (e, build_chunks) (ap some (with_tail-section_loop t target hs (first_group t h)))

Meets-chunks :
    (t : String) (outline : Forest) (target : ℕ) (h : Heading) (hs : List Heading)
    → top_nodes outline ≡ h ∷ hs
    → Meets t h.char_start (h ∷ hs)
    → (chunks : List DocumentChunk) × (build_chunks t outline target ≡ some chunks)
      × (bodies chunks ≡ slice t h.char_start (count t))
Meets-chunks t outline target h hs e (_, up, meets) = (
  section_loop t target (first_group t h) hs,
  build_chunks-top t outline target h hs e,
  bodies-Cuts (section_loop-Cuts t target hs (first_group t h) up (omega arith) meets),
)

-- For an outline of main headings alone, in the order of the text, the chunks of `build_chunks`,
-- without their prefixes and put together, are the text from the first heading to its end.
pub build_chunks-bodies :
    (full_text : String) (target : ℕ) (h : Heading) (hs : List Heading)
    → all_main (h ∷ hs) ≡ true
    → Ascending (count full_text) (h ∷ hs)
    → (chunks : List DocumentChunk) × (build_chunks full_text
          (build_outline (count full_text) (h ∷ hs))
          target
        ≡ some chunks)
      × (bodies chunks ≡ slice full_text h.char_start (count full_text))
unfolding set_ends
build_chunks-bodies t target h [] main a =
    Meets-chunks t _ target (record h { char_end = count t }) []
      (top_nodes-build_outline (count t) (h ∷ []) main a)
      (Meets-set_ends t h.char_start h [] a refl)
build_chunks-bodies t target h (k ∷ hs) main a =
    Meets-chunks t _ target (record h { char_end = k.char_start }) (set_ends (count t) (k ∷ hs))
      (top_nodes-build_outline (count t) (h ∷ k ∷ hs) main a)
      (Meets-set_ends t h.char_start h (k ∷ hs) a refl)
