-- ===== src/Hub/Post/Gate.antt =====
-- Whether a room lets a post pass: its archive, its moderation, its mode, its rate limit
-- (crates/server/src/hub.rs).
use loca.Base.{
  ℕ, ◌*◌, String, Bool, not, ◌&&◌, Option, none, some, List, [], ◌==◌, string_eq, if◌then◌else◌,
  contains, get_elem?, ltb, unwrap_or,
}
use loca.Base.Dict
use loca.Protocol.Chat.{ChatMode}
use loca.Hub.State.{Room}
use loca.Hub.Post.Store.{PostReject}
use loca.Hub.RateLimit.{rate_check}

-- The mode's answer for a sender who is no admin.
unfoldable pub mode_gate : ChatMode → String → Option PostReject
mode_gate ChatMode.free sender = none
mode_gate ChatMode.paused sender = some PostReject.paused
mode_gate (ChatMode.restricted allow) sender =
    if contains sender allow then none else some PostReject.not_allowed
mode_gate (ChatMode.round_robin order turn) sender = elim (get_elem? order turn) [
  | none ↦ some (PostReject.not_your_turn none)
  | some cur ↦ if cur == sender then none else some (PostReject.not_your_turn (some cur))
]

unfoldable pub gate : Room → String → Bool → Option PostReject
unfolding mode_gate
gate r sender is_admin =
    if r.settings.archived
    then some PostReject.archived
    else if is_admin
    then none
    else if contains sender r.banned
    then some PostReject.banned
    else if contains sender r.muted
    then some PostReject.muted
    else mode_gate r.mode sender

-- `record_rate`
unfoldable pub records_rate : Room → Bool → Bool
records_rate r is_admin = not is_admin && ltb 0 r.settings.rate_limit

unfoldable pub times_of : Room → String → List ℕ
times_of r sender = unwrap_or [] (Dict.lookup sender r.post_times)

-- The room with the sender's expired times dropped, and the seconds to wait if it refuses.
unfoldable pub rate_gate : ℕ → Room → String → Bool → Room × Option ℕ
unfolding records_rate times_of
rate_gate now r sender is_admin =
    if records_rate r is_admin
    then (let (left, refused) =
          rate_check r.settings.rate_limit (r.settings.rate_window_secs * 1000) now
            (times_of r sender) in
        (record r { post_times = Dict.insert sender left r.post_times }, refused))
    else (r, none)
