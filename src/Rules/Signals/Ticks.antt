-- ===== src/Rules/Signals/Ticks.antt =====
-- The rounding of a price to a multiple of a tick.
use algo_treading.Base.{ℕ, ◌+◌, ◌*◌, ◌/◌, ◌≤◌, ◌<◌, ◌≡◌, arith}
use algo_treading.Base.Int.{pos, ◌+ℤ◌, ◌*ℤ◌}
use algo_treading.Base.Float.{trunc_div}
use algo_treading.Rules.Signals.Pricing.{round_ticks}

round_lem : (n t : ℕ) → 0 < t → ((n / t) * t ≤ n) × (n < (n / t) * t + t)
round_lem n t h = grind arith

-- A price that is not negative is rounded to a multiple of the tick: the greatest that is not above the
-- price by more than half a tick.
pub round_ticks_bounds :
    (price tick : ℕ)
    → 0 < tick
    → (k : ℕ) × (round_ticks (pos price) tick ≡ pos (k * tick))
      × (k * tick ≤ price + tick / 2)
      × (price + tick / 2 < k * tick + tick)
unfolding round_ticks trunc_div ◌*ℤ◌ ◌+ℤ◌
round_ticks_bounds price tick h =
    let (low, high) = round_lem (price + tick / 2) tick h in
    ((price + tick / 2) / tick, ground arith, low, high)
