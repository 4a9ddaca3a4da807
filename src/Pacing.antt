-- ===== src/Pacing.antt =====
-- The pacing of the page writer: app/ai/mrp/writer_pacing.py.
pub mod Streaks
mod Examples
use arkon.Base.{
  ℕ, zero, suc, ◌+◌, String, Bool, true, false, not, List, [], ◌∷◌, leb, ltb, if◌then◌else◌,
}

-- SUCCESS_STREAK_TO_HEAL
abbrev pub success_streak_to_heal : ℕ
success_streak_to_heal = 3

pub record LlmPacer : Type 0 where
  pub base_ms : ℕ
  pub fail_ms : ℕ
  pub ramped : Bool
  pub success_streak : ℕ

-- the delay of `wait`, in milliseconds
unfoldable pub delay : LlmPacer → ℕ
delay p = if p.ramped then p.fail_ms else p.base_ms

unfoldable pub report_outcome : Bool → LlmPacer → LlmPacer
report_outcome success p =
    if success
    then record p {
      success_streak = p.success_streak + 1;
      ramped = if leb success_streak_to_heal (p.success_streak + 1) then false else p.ramped;
    }
    else record p { ramped = true; success_streak = 0 }

pub record ConsecutiveStubBreaker : Type 0 where
  pub threshold : ℕ
  pub count : ℕ

-- `trip`: the new state, and whether to abort
unfoldable pub trip : ConsecutiveStubBreaker → ConsecutiveStubBreaker × Bool
trip b = (record b { count = b.count + 1 }, leb b.threshold (b.count + 1))

unfoldable pub reset_on_success : ConsecutiveStubBreaker → ConsecutiveStubBreaker
reset_on_success b = record b { count = 0 }
