-- ===== src/Hub/Clock.antt =====
-- `next_condition_generation` (crates/server/src/hub.rs): a generation that advances although the
-- wall clock may stand still or run backwards. The compare-and-swap loop stores what it computed
-- from the value that it read, so one call is one step here.
use Prim.Native.Nat.{max}
use loca.Base.{ℕ, ◌≤◌, ◌<◌, arith, sat_add, sat_add-lt, sat_add-le_max, u64_max}

-- The new generation, which is also the new value of the counter.
unfoldable pub next_generation : ℕ → ℕ → ℕ → ℕ
next_generation current now previous = max (max now (sat_add previous 1)) (sat_add current 1)

-- While the counter and the previous generation are below the largest 64-bit number, a generation is
-- beyond both of them, and not before the clock.
pub next_generation_bounds :
    (current now previous : ℕ)
    → current < u64_max
    → previous < u64_max
    → (current < next_generation current now previous)
      × (previous < next_generation current now previous)
      × (now ≤ next_generation current now previous)
unfolding next_generation
next_generation_bounds current now previous h k =
    omega (arith, sat_add-lt previous 1, sat_add-lt current 1)

pub next_generation-le :
    (current now previous : ℕ)
    → current ≤ u64_max
    → now ≤ u64_max
    → next_generation current now previous ≤ u64_max
unfolding next_generation
next_generation-le current now previous h k =
    omega (arith, sat_add-le_max previous 1, sat_add-le_max current 1)
