-- ===== src/Hub/RateLimit/Kept.antt =====
-- The times that the rate limit keeps of a sender, and those it has let pass (crates/server/src/hub.rs).
use loca.Base.{
  ℕ, suc, ◌+◌, ◌-◌, string_eq, ◌≤◌, ◌<◌, ◌≡◌, refl, false, List, [], ◌∷◌, ◌++◌, leb, length,
  length-append, arith, if◌then◌else◌,
}
use loca.Hub.RateLimit.{as_u32, expire}

-- How many of these times lie in the window that ends at `now`.
unfoldable pub recent : ℕ → ℕ → List ℕ → ℕ
recent window_ms now [] = 0
recent window_ms now (t ∷ times) =
    let rest = recent window_ms now times in if leb t (now - window_ms) then rest else suc rest

recent-append :
    (w now : ℕ) (xs ys : List ℕ) → recent w now (xs ++ ys) ≡ recent w now xs + recent w now ys
unfolding recent
recent-append w now [] ys = omega arith
recent-append w now (x ∷ xs) ys = ground (arith, recent-append w now xs ys)

pub recent-le-length : (w now : ℕ) (xs : List ℕ) → recent w now xs ≤ length xs
unfolding recent
recent-le-length w now [] = omega arith
recent-le-length w now (x ∷ xs) = ground (arith, recent-le-length w now xs)

-- What a later window still sees of the kept times survives the expiry.
recent-expire :
    (w now later : ℕ) (xs : List ℕ)
    → now ≤ later
    → recent w later (expire (now - w) xs) ≡ recent w later xs
unfolding recent expire
recent-expire w now later [] h = refl
recent-expire w now later (x ∷ xs) h = ground (arith, recent-expire w now later xs h)

length-expire-le : (c : ℕ) (xs : List ℕ) → length (expire c xs) ≤ length xs
unfolding expire
length-expire-le c [] = omega arith
length-expire-le c (x ∷ xs) = ground (arith, length-expire-le c xs)

-- From `now` on the kept times are all that the window sees of the accepted ones, and they are
-- within the limit.
pub record Inv (limit w now : ℕ) (accepted kept : List ℕ) : Type 0 where
  pub seen : (t : ℕ) → now ≤ t → recent w t accepted ≤ recent w t kept
  pub within : length kept ≤ limit

pub Inv-later :
    (limit w now later : ℕ) (accepted kept : List ℕ)
    → now ≤ later
    → Inv limit w now accepted kept
    → Inv limit w later accepted kept
Inv-later limit w now later accepted kept k v = record {
  seen = λ t le. v.seen t (omega arith);
  within = v.within;
}

pub Inv-refused :
    (limit w now later : ℕ) (accepted kept : List ℕ)
    → now ≤ later
    → Inv limit w now accepted kept
    → Inv limit w later accepted (expire (later - w) kept)
Inv-refused limit w now later accepted kept k v = record {
  seen = λ t le. omega (arith, recent-expire w later t kept le, v.seen t (omega arith));
  within = omega (arith, length-expire-le (later - w) kept, v.within);
}

pub Inv-accepted :
    (limit w now later : ℕ) (accepted kept : List ℕ)
    → limit < 4294967296
    → now ≤ later
    → leb limit (as_u32 (length (expire (later - w) kept))) ≡ false
    → Inv limit w now accepted kept
    → Inv limit w later (accepted ++ later ∷ []) (expire (later - w) kept ++ later ∷ [])
Inv-accepted limit w now later accepted kept h k free v = record {
  seen = λ t le. omega (
    arith,
    recent-append w t accepted (later ∷ []),
    recent-append w t (expire (later - w) kept) (later ∷ []),
    recent-expire w later t kept le,
    v.seen t (omega arith),
  );
  within = ground (
    arith,
    length-append (expire (later - w) kept) (later ∷ []),
    length-expire-le (later - w) kept,
    v.within,
  );
}
