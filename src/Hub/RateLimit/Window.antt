-- ===== src/Hub/RateLimit/Window.antt =====
-- The rate limit against its meaning, over any history of posts to a room (crates/server/src/hub.rs).
use loca.Base.{
  ℕ, ◌*◌, String, Bool-cases, inl, inr, true, false, ◌≤◌, true, false, [], Bool-cases, inl, inr,
}
use loca.Hub.State.{Room}
use loca.Hub.Post.Gate.{times_of}
use loca.Hub.RateLimit.Kept.{Inv}
use loca.Hub.RateLimit.Knocks.{Knock, Trace}

-- What the window has seen of the sender is within the limit of the room.
abbrev Seen : String → ℕ → Trace → Type 0
Seen sender now s =
    Inv s.room.settings.rate_limit (s.room.settings.rate_window_secs * 1000) now s.accepted
      (times_of s.room sender)

module _ (sender : String) (now : ℕ) (s : Trace) (k : Knock) (le : now ≤ k.now)
    (v : Seen sender now s) where
  abbrev limit : ℕ
  limit = s.room.settings.rate_limit

  abbrev window : ℕ
  window = s.room.settings.rate_window_secs * 1000

abbrev pub fresh : Room → Trace
fresh r = record { room = r; accepted = [] }
