-- ===== src/Pacing/Examples.antt =====
-- The theorems on pacing for short runs of pages.
use arkon.Base.{◌≡◌, true, false, [], ◌∷◌}
use arkon.Pacing.{delay}
use arkon.Pacing.Streaks.{paced, delay-paced}

delay-paced_example : delay (paced 0 3000 (true ∷ true ∷ false ∷ [])) ≡ 3000
delay-paced_example = delay-paced 0 3000 (true ∷ true ∷ false ∷ [])
