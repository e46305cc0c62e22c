-- ===== src/Base/Words.antt =====
-- Machine words: `u64` values are native numbers below 2^64, and `u32` values below 2^32.
use Prim.Native.Nat.{ℕ, ◌+◌, ◌%◌, ◌≤◌, ◌<◌, min, max}
use mathlib.Core.Path.{◌≡◌}
use native.Mathlib.Omega.{arith}

abbrev pub u64_max : ℕ
u64_max = 18446744073709551615

-- `a.saturating_add(b)` on u64
unfoldable pub sat_add : ℕ → ℕ → ℕ
sat_add a b = min u64_max (a + b)

-- `a.clamp(lo, hi)`
unfoldable pub clamp : ℕ → ℕ → ℕ → ℕ
clamp lo hi a = max lo (min hi a)

-- `AtomicU64::fetch_add` wraps.
unfoldable pub wrap_suc : ℕ → ℕ
wrap_suc a = (a + 1) % 18446744073709551616

pub sat_add-lt : (a b : ℕ) → a + b ≤ u64_max → sat_add a b ≡ a + b
unfolding sat_add
sat_add-lt a b h = omega arith

pub sat_add-ge : (a b : ℕ) → a ≤ u64_max → a ≤ sat_add a b
unfolding sat_add
sat_add-ge a b h = omega arith

pub sat_add-le : (a b : ℕ) → sat_add a b ≤ a + b
unfolding sat_add
sat_add-le a b = omega arith

pub clamp_bounds : (lo hi a : ℕ) → lo ≤ hi → (lo ≤ clamp lo hi a) × (clamp lo hi a ≤ hi)
unfolding clamp
clamp_bounds lo hi a h = omega arith

pub wrap_suc-eq : (a : ℕ) → a < u64_max → wrap_suc a ≡ a + 1
unfolding wrap_suc
wrap_suc-eq a h = omega arith

pub sat_add-le_max : (a b : ℕ) → sat_add a b ≤ u64_max
unfolding sat_add
sat_add-le_max a b = omega arith
