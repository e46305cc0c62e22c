-- ===== src/Hub/RateLimit.antt =====
-- The sliding-window rate limit of `post` (crates/server/src/hub.rs): the accepted times of one
-- sender, oldest first. Hub/Post/Gate says whom it concerns, and Hub/Post/Commit records a time. Times are u64 milliseconds, the limit and the window u32.
pub mod Kept
pub mod Knocks
pub mod Window
pub mod Retry
use loca.Base.{
  ℕ, ◌+◌, ◌-◌, ◌*◌, ◌/◌, ◌%◌, Bool, true, false, Option, none, some, List, [], ◌∷◌, ◌++◌, leb,
  length, if◌then◌else◌,
}

-- `times.len() as u32`
abbrev pub as_u32 : ℕ → ℕ
as_u32 n = n % 4294967296

-- Pops the times that have left the window.
unfoldable pub expire : ℕ → List ℕ → List ℕ
expire cutoff [] = []
expire cutoff (t ∷ times) =
    let rest = expire cutoff times in if leb t cutoff then rest else t ∷ times

-- How long until the oldest time leaves the window.
unfoldable pub retry_ms : ℕ → ℕ → List ℕ → ℕ
retry_ms window_ms now [] = window_ms
retry_ms window_ms now (t ∷ times) = t + window_ms - now

-- `div_ceil(1000)`
abbrev pub div_ceil_1000 : ℕ → ℕ
div_ceil_1000 n = (n + 999) / 1000

-- The check of one post: the times that stay, and the seconds to wait if it is refused.
unfoldable pub rate_check : ℕ → ℕ → ℕ → List ℕ → List ℕ × Option ℕ
unfolding expire retry_ms
rate_check limit window_ms now times =
    let left = expire (now - window_ms) times in
    (
      left,
      if leb limit (as_u32 (length left))
          then some (div_ceil_1000 (retry_ms window_ms now left))
          else none,
    )
