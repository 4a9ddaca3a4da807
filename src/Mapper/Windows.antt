-- ===== src/Mapper/Windows.antt =====
-- The windows of a text without an outline (`_sliding_window_chunks` of app/ai/mrp/mapper.py).
use Prim.Native.String.{count, ◌++◌ as str_append}
use arkon.Base.{
  ℕ, zero, suc, ◌+◌, ◌≤◌, ◌<◌, ◌≡◌, refl, ◌∙◌, String, Option, some, Bool-cases, inl, inr, List, [],
  ◌∷◌, All, ltb, arith, min,
}
use arkon.Contribution.Effects.{decimal}
use arkon.Mapper.{DocumentChunk, chunk_of, window_prefix, window_loop, sliding_window_chunks}
use arkon.Mapper.Cuts.{slice_self, bodies, Cuts, finish, cut, body-chunk_of, bodies-Cuts}

-- the sizes of the bodies
abbrev pub AtMost : ℕ → List DocumentChunk → Type 0
AtMost target cs = All (λ c. c.end_char ≤ c.start_char + target) cs

abbrev Windows : String → ℕ → ℕ → Option (List DocumentChunk) → Type 0
Windows t target pos outcome =
    (cs : List DocumentChunk) × (outcome ≡ some cs) × Cuts t (count t) pos cs × AtMost target cs

window_loop-Windows :
    (fuel : ℕ) (t : String) (target idx pos prev_end : ℕ)
    → 0 < target
    → pos ≤ count t
    → count t < fuel + pos
    → Windows t target pos (window_loop fuel t target idx pos prev_end)
unfolding window_loop
window_loop-Windows zero t target idx pos prev_end h le enough = absurd (omega arith)
window_loop-Windows (suc fuel) t target idx pos prev_end h le enough =
    elim (Bool-cases (ltb pos (count t))) [
      | inr done ↦ let at : pos ≡ count t = ground arith in rw done ([], refl, finish at, tt)
      | inl more ↦
          let below : pos < count t = ground arith in
          let end = min (pos + target) (count t) in
          let (cs, e, cuts, sizes) =
            window_loop-Windows fuel t target (idx + 1) end end h (omega arith) (omega arith) in
          let path = str_append "chunk_" (decimal idx) in
          let c = chunk_of t idx pos end path (window_prefix t idx prev_end) in
          rw (more, e)
            (
              c ∷ cs,
              refl,
              cut c refl (omega arith)
                  (body-chunk_of t idx pos end path (window_prefix t idx prev_end)) cuts,
              (omega arith, sizes),
            )
    ]

-- The loop over the windows ends for every text and every positive size; the windows without their
-- prefixes, put together, are the text, and none is larger than the size.
pub sliding_window_chunks-bodies :
    (full_text : String) (target : ℕ)
    → 0 < target
    → (chunks : List DocumentChunk) × (sliding_window_chunks full_text target ≡ some chunks)
      × (bodies chunks ≡ full_text)
      × AtMost target chunks
unfolding sliding_window_chunks
sliding_window_chunks-bodies t target h =
    let (cs, e, cuts, sizes) =
      window_loop-Windows (suc (count t)) t target 0 0 0 h (omega arith) (omega arith) in
    (cs, e, bodies-Cuts cuts ∙ slice_self t, sizes)
