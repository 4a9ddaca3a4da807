-- ===== src/Pacing/Streaks.antt =====
-- Runs of outcomes of the page writer (app/ai/mrp/writer_pacing.py), the latest one first.
use arkon.Base.{
  ℕ, zero, suc, ◌≡◌, refl, Bool, true, false, not, ◌&&◌, List, [], ◌∷◌, leb, ltb, any, take, arith,
  if◌then◌else◌,
}
use arkon.Pacing.{LlmPacer, delay, report_outcome, ConsecutiveStubBreaker, trip, reset_on_success}

abbrev pub fresh_pacer : ℕ → ℕ → LlmPacer
fresh_pacer base_ms fail_ms = record {
  base_ms = base_ms;
  fail_ms = fail_ms;
  ramped = false;
  success_streak = 0;
}

-- the pacer after these outcomes
abbrev pub paced : ℕ → ℕ → List Bool → LlmPacer
paced base_ms fail_ms [] = fresh_pacer base_ms fail_ms
paced base_ms fail_ms (success ∷ before) = report_outcome success (paced base_ms fail_ms before)

-- the successes since the last failure
abbrev lead : List Bool → ℕ
lead [] = 0
lead (true ∷ os) = suc (lead os)
lead (false ∷ os) = 0

streak_lem : (b f : ℕ) (os : List Bool) → (paced b f os).success_streak ≡ lead os
unfolding report_outcome
streak_lem b f [] = refl
streak_lem b f (true ∷ os) = ground (arith, streak_lem b f os)
streak_lem b f (false ∷ os) = refl

ramped_lem : (b f : ℕ) (os : List Bool) → (paced b f os).ramped ≡ (ltb (lead os) 3 && any not os)
unfolding report_outcome
ramped_lem b f [] = refl
ramped_lem b f (true ∷ os) = ground (arith, streak_lem b f os, ramped_lem b f os)
ramped_lem b f (false ∷ os) = refl

recent_lem : (os : List Bool) → (ltb (lead os) 3 && any not os) ≡ any not (take 3 os)
recent_lem [] = refl
recent_lem (false ∷ os) = refl
recent_lem (true ∷ []) = refl
recent_lem (true ∷ false ∷ os) = refl
recent_lem (true ∷ true ∷ []) = refl
recent_lem (true ∷ true ∷ false ∷ os) = refl
recent_lem (true ∷ true ∷ true ∷ os) = ground arith

fixed_lem : (b f : ℕ) (os : List Bool) → ((paced b f os).base_ms ≡ b) × ((paced b f os).fail_ms ≡ f)
unfolding report_outcome
fixed_lem b f [] = (refl, refl)
fixed_lem b f (true ∷ os) = fixed_lem b f os
fixed_lem b f (false ∷ os) = fixed_lem b f os

-- The writer waits the longer time exactly while one of the last three outcomes is a failure.
pub delay-paced :
    (base_ms fail_ms : ℕ) (outcomes : List Bool)
    → delay (paced base_ms fail_ms outcomes)
      ≡ (if any not (take 3 outcomes) then fail_ms else base_ms)
unfolding delay
delay-paced base_ms fail_ms outcomes =
    let (b, f) = fixed_lem base_ms fail_ms outcomes in
    rw (ramped_lem base_ms fail_ms outcomes, recent_lem outcomes, b, f) refl

-- The breaker after pages of which some were stubs (`true`), the latest one first.
abbrev pub broken : ℕ → List Bool → ConsecutiveStubBreaker
broken threshold [] = record { threshold = threshold; count = 0 }
broken threshold (true ∷ before) = (trip (broken threshold before)).0
broken threshold (false ∷ before) = reset_on_success (broken threshold before)

-- whether there are that many outcomes, and the last ones are all stubs
abbrev pub all_stubs : ℕ → List Bool → Bool
all_stubs zero os = true
all_stubs (suc n) [] = false
all_stubs (suc n) (true ∷ os) = all_stubs n os
all_stubs (suc n) (false ∷ os) = false

threshold_lem : (t : ℕ) (os : List Bool) → (broken t os).threshold ≡ t
unfolding trip reset_on_success
threshold_lem t [] = refl
threshold_lem t (true ∷ os) = threshold_lem t os
threshold_lem t (false ∷ os) = threshold_lem t os

count_lem : (t n : ℕ) (os : List Bool) → leb n (broken t os).count ≡ all_stubs n os
unfolding trip reset_on_success
count_lem t zero os = ground arith
count_lem t (suc n) [] = ground arith
count_lem t (suc n) (true ∷ os) = ground (arith, count_lem t n os)
count_lem t (suc n) (false ∷ os) = ground arith

-- The breaker says to abort at a stub exactly if it and the pages before it, as many as the
-- threshold in all, are stubs.
pub trip-broken :
    (threshold : ℕ) (before : List Bool)
    → (trip (broken threshold before)).1 ≡ all_stubs threshold (true ∷ before)
unfolding trip
trip-broken threshold before =
    rw (threshold_lem threshold before) (count_lem threshold threshold (true ∷ before))
