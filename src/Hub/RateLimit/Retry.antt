-- ===== src/Hub/RateLimit/Retry.antt =====
-- The waiting time that a refusal names (the rate limit of `post`, crates/server/src/hub.rs).
use loca.Base.{ℕ, ◌+◌, ◌-◌, ◌*◌, ◌≤◌, ◌<◌, ◌≡◌, true, none, some, List, [], ◌∷◌, leb, length, arith}
use loca.Hub.RateLimit.{as_u32, div_ceil_1000, expire, retry_ms, rate_check}

length-expire-le : (c : ℕ) (xs : List ℕ) → length (expire c xs) ≤ length xs
unfolding expire
length-expire-le c [] = omega arith
length-expire-le c (x ∷ xs) = ground (arith, length-expire-le c xs)

-- Once the wait is over, the oldest time has left the window.
waited :
    (limit w now later : ℕ) (left : List ℕ)
    → 0 < limit
    → limit < 4294967296
    → length left ≤ limit
    → limit ≤ as_u32 (length left)
    → now + div_ceil_1000 (retry_ms w now left) * 1000 ≤ later
    → length (expire (later - w) left) < limit
unfolding expire retry_ms
waited limit w now later [] p b l f h = omega arith
waited limit w now later (t ∷ left) p b l f h =
    let out : leb t (later - w) ≡ true = ground arith in
    rw out (omega (arith, length-expire-le (later - w) left))

-- A refusal names a waiting time that is enough: a sender who comes back that many seconds later,
-- or later still, is let through. (The limit is between 1 and 2 ^ 32 - 1, and no more times than it
-- are kept.)
pub rate_check_retry :
    (limit w now later secs : ℕ) (times : List ℕ)
    → 0 < limit
    → limit < 4294967296
    → length times ≤ limit
    → (rate_check limit w now times).1 ≡ some secs
    → now + secs * 1000 ≤ later
    → (rate_check limit w later (rate_check limit w now times).0).1 ≡ none
unfolding rate_check
rate_check_retry limit w now later secs times p b l e h =
    ground
      (arith, length-expire-le (now - w) times, waited limit w now later (expire (now - w) times))
