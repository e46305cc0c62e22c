-- ===== src/Hub/Settings.antt =====
-- Changing a room's mode, lead and settings, and the expiry of live mode
-- (crates/server/src/hub.rs). `saved` says whether the store accepted the row.
pub mod Bounds
pub mod Turns
use Prim.Native.Nat.{max, min}
use loca.Base.{
  ℕ, ◌+◌, ◌-◌, ◌*◌, String, Bool, true, false, not, ◌&&◌, Option, none, some, List, [], ◌∷◌, ◌++◌,
  ◌==◌, string_eq, if◌then◌else◌, ltb, leb, length, any, is_some, unwrap_or, format, show, wrap_suc,
  clamp, Answer, failed, got, Result, ok, err,
}
use loca.Base.Dict
use loca.Base.Dict.{Dict}
use loca.Protocol.Chat.{SenderType, Message, MessageKind, ChatMode}
use loca.Protocol.Settings.{RoomSettings, SetSettings, ReminderRecipient}
use loca.Protocol.Work.{Goal, GoalStatus, goal_status_eq}
use loca.Protocol.Frames.{ServerFrame}
use loca.Hub.State.{Room, Hub, send, room_of, put_room, is_deleted}

-- `set_mode` corrects a turn outside the order.
unfoldable pub normalize : ChatMode → ChatMode
normalize (ChatMode.round_robin order turn) =
    ChatMode.round_robin order (if leb (length order) turn then 0 else turn)
normalize mode = mode

unfoldable pub mode_of : Hub → String → ChatMode
mode_of h room = elim (Dict.lookup room h.rooms) [ none ↦ ChatMode.free | some r ↦ r.mode ]

unfoldable pub set_mode : Hub → String → ChatMode → Bool → Hub × Answer ChatMode
unfolding normalize mode_of send
set_mode h room mode saved =
    let r = room_of h room in
    if is_deleted h room
    then (h, got (mode_of h room))
    else if saved
    then (
      put_room h room
          (send (ServerFrame.mode (normalize mode)) (record r { mode = normalize mode })),
      got (normalize mode),
    )
    else (put_room h room r, failed)

unfoldable pub settings_of : Hub → String → RoomSettings
settings_of h room = elim (Dict.lookup room h.rooms) [
  | none ↦ h.default_settings
  | some r ↦ r.settings
]

-- The settings after a change. The numbers are clamped, and the quiet window fits into the
-- longest wait.
unfoldable pub apply_settings : SetSettings → RoomSettings → RoomSettings
apply_settings q s =
    let idle : ℕ = elim q.turn_idle_ms [ none ↦ s.turn_idle_ms | some v ↦ clamp 100 30000 v ] in
    let wait : ℕ = elim q.turn_max_wait_ms [
      | none ↦ s.turn_max_wait_ms
      | some v ↦ clamp 100 60000 v
    ] in
    record {
      lead = s.lead;
      rate_limit = unwrap_or s.rate_limit q.rate_limit;
      rate_window_secs = elim q.rate_window_secs [ none ↦ s.rate_window_secs | some v ↦ max v 1 ];
      live = unwrap_or s.live q.live;
      archived = unwrap_or s.archived q.archived;
      live_timeout_secs = unwrap_or s.live_timeout_secs q.live_timeout_secs;
      operators = unwrap_or s.operators q.operators;
      turn_max_messages = elim q.turn_max_messages [
        | none ↦ s.turn_max_messages
        | some v ↦ clamp 1 16 v
      ];
      turn_idle_ms = idle;
      turn_max_wait_ms = max wait idle;
      care_wait_secs = unwrap_or s.care_wait_secs q.care_wait_secs;
      care_cooldown_secs = unwrap_or s.care_cooldown_secs q.care_cooldown_secs;
      care_max_attempts = elim q.care_max_attempts [
        | none ↦ s.care_max_attempts
        | some v ↦ clamp 1 10 v
      ];
      care_context_messages = elim q.care_context_messages [
        | none ↦ s.care_context_messages
        | some v ↦ clamp 0 20 v
      ];
      care_recipient = unwrap_or s.care_recipient q.care_recipient;
      care_goal_secs = unwrap_or s.care_goal_secs q.care_goal_secs;
      care_task_secs = unwrap_or s.care_task_secs q.care_task_secs;
      care_silence_secs = unwrap_or s.care_silence_secs q.care_silence_secs;
    }

-- What saved settings change in the room: archiving clears the care marks, and switching live
-- mode on restarts its idle time.
unfoldable pub adopt_settings : SetSettings → ℕ → Room → Room
unfolding apply_settings send
adopt_settings q now r =
    let s = apply_settings q r.settings in
    send (ServerFrame.settings s) (record r {
      care_marks = if not r.settings.archived && s.archived then [] else r.care_marks;
      last_msg_ms = if unwrap_or false q.live then now else r.last_msg_ms;
      settings = s;
    })

unfoldable pub set_settings : Hub → String → SetSettings → ℕ → Bool → Hub × Answer RoomSettings
unfolding adopt_settings
set_settings h room q now saved =
    let r = room_of h room in
    if is_deleted h room
    then (h, failed)
    else if saved
    then (put_room h room (adopt_settings q now r), got (apply_settings q r.settings))
    else (put_room h room r, failed)

pub data LeadError : Type 0 where
  active_goal storage : LeadError

-- The announcement of a lead, addressed to the one named.
unfoldable pub lead_message : Hub → String → Option String → String → ℕ → Message
lead_message h room lead by now = record {
  id = h.next_id;
  room = room;
  sender = "loca";
  sender_type = SenderType.user;
  target = some (unwrap_or "all" lead);
  text = format (by ∷ " set @lead " ∷ unwrap_or "none" lead ∷ "." ∷ []);
  kind = MessageKind.announce;
  reply_to = none;
  reply_to_sender = none;
  ts = now;
  attachments = [];
}

unfoldable pub has_active_goal : Room → Bool
has_active_goal r = any (λ g. g.status == GoalStatus.active) (Dict.values r.goals)

unfoldable pub set_lead :
    Hub → String → Option String → String → ℕ → Bool → Hub × Result RoomSettings LeadError
unfolding lead_message has_active_goal send
set_lead h room lead by now saved =
    let r = room_of h room in
    let s = record r.settings { lead = lead } in
    let m = lead_message h room lead by now in
    let h' = record h { next_id = wrap_suc h.next_id } in
    if is_deleted h room
    then (h, ok (settings_of h room))
    else if not (is_some lead) && has_active_goal r
    then (h, err LeadError.active_goal)
    else if saved
    then (
      put_room h' room (
          send (ServerFrame.msg m) (
            send (ServerFrame.settings s)
              (record r { settings = s; history = r.history ++ m ∷ [] }))),
      ok s,
    )
    else (h', err LeadError.storage)

-- Whether live mode has been silent for longer than its timeout.
unfoldable pub live_expired : ℕ → Room → Bool
live_expired now r =
    let t = r.settings.live_timeout_secs in
    r.settings.live && (ltb 0 t && (ltb 0 r.last_msg_ms && ltb (t * 1000) (now - r.last_msg_ms)))

-- One room of `expire_live`. The frames are sent before the store is asked; if it refuses, live
-- mode is on again.
unfoldable pub expire_room : ℕ → Bool → Room → Room
unfolding send
expire_room now saved r =
    let s = record r.settings { live = false } in
    let told =
      send (ServerFrame.control (format ("live-expired:" ∷ show s.live_timeout_secs ∷ [])))
        (send (ServerFrame.settings s) r) in
    if live_expired now r then record told { settings = if saved then s else r.settings } else r

expire_rooms : ℕ → (String → Bool) → Dict String Room → Dict String Room
unfolding expire_room
expire_rooms now saved [] = []
expire_rooms now saved ((name, r) ∷ rooms) =
    (name, expire_room now (saved name) r) ∷ expire_rooms now saved rooms

unfoldable pub expire_live : Hub → ℕ → (String → Bool) → Hub
unfolding expire_rooms
expire_live h now saved = record h { rooms = expire_rooms now saved h.rooms }
