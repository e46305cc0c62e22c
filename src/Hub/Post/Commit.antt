-- ===== src/Hub/Post/Commit.antt =====
-- What a stored message changes in memory, and the frames that it sends
-- (crates/server/src/hub.rs).
use loca.Base.{
  ℕ, ◌-◌, String, Bool, true, false, Option, none, some, List, [], ◌∷◌, ◌++◌, string_eq, pair_eq,
  if◌then◌else◌, length, ltb, drop, unwrap_or,
}
use loca.Base.Dict
use loca.Base.Dict.{Dict}
use loca.Protocol.Chat.{Message, ChatMode}
use loca.Protocol.Work.{WaitState}
use loca.Protocol.Attention.{Attention, AttentionStatus, CareSignal, origin_room}
use loca.Protocol.Frames.{ServerFrame}
use loca.Hub.State.{Room, Hub, send, put_room, history_limit}
use loca.Hub.Attention.Resolution.{resolve_condition_attention, resolve_wait_attentions}
use loca.Hub.Post.Store.{PostStore}
use loca.Hub.Post.Gate.{times_of}

unfoldable pub record_time : Bool → ℕ → String → Room → Room
unfolding times_of
record_time false now sender r = r
record_time true now sender r = record r {
  post_times = Dict.insert sender (times_of r sender ++ now ∷ []) r.post_times;
}

-- The oldest operations go while there are more than the limit.
unfoldable pub trim_operations :
    List (String × String)
    → Dict (String × String) Message
    → List (String × String) × Dict (String × String) Message
trim_operations [] operations = ([], operations)
trim_operations (key ∷ order) operations =
    let rest = trim_operations order (Dict.remove key operations) in
    if ltb history_limit (length (key ∷ order)) then rest else (key ∷ order, operations)

unfoldable pub record_operation : Option String → String → Message → Room → Room
unfolding trim_operations
record_operation none principal m r = r
record_operation (some id) principal m r =
    let (order, operations) =
      trim_operations (r.operation_order ++ (principal, id) ∷ [])
        (Dict.insert (principal, id) m r.operations) in
    record r { operations = operations; operation_order = order }

unfoldable pub record_turn : Option ChatMode → Room → Room
unfolding send
record_turn none r = r
record_turn (some mode) r = send (ServerFrame.mode mode) (record r { mode = mode })

-- The history with the message, cut to the limit at the old end.
unfoldable pub push_history : Message → List Message → List Message
push_history m history =
    let all = history ++ m ∷ [] in
    if ltb history_limit (length all) then drop (length all - history_limit) all else all

unfoldable pub record_message : String → Message → Room → Room
unfolding send push_history
record_message room m r =
    let r' =
      resolve_condition_attention (record r { care_marks = Dict.remove "silence" r.care_marks })
        room "silence" m.ts in
    send (ServerFrame.msg m) (record r' { last_msg_ms = m.ts; history = push_history m r'.history })

-- The attention of a signal: the store's row, or a new one.
unfoldable pub attention_of : PostStore → String → CareSignal → Attention
attention_of store room s = unwrap_or fresh (store.attention s.attention_id)
  where
    fresh : Attention
    fresh = record {
      id = s.attention_id;
      room = room;
      reason = s.reason;
      subject = s.subject;
      audience = s.audience;
      owner = s.owner;
      group = s.group;
      participants = s.participants;
      created_by = s.created_by;
      created_at = s.at;
      attempt = s.attempt;
      escalated = s.escalated;
      status = AttentionStatus.opened;
      delivered_at = none;
      claimed_by = none;
      claimed_at = none;
      resolved_at = none;
    }

unfoldable pub file_attention : Attention → Room → Room
file_attention a r = record r { attentions = Dict.insert a.id a r.attentions }

unfoldable pub deliver_to : CareSignal → Hub → Hub
deliver_to s h = record h { care_deliveries = Dict.insert s.id s.attention_id h.care_deliveries }

-- The frame goes to the home room's channel, if that room was there.
unfoldable pub send_home : Bool → CareSignal → Hub → Hub
unfolding send put_room
send_home false s h = h
send_home true s h = elim (Dict.lookup h.home_room h.rooms) [
  | none ↦ h
  | some home ↦ put_room h h.home_room (send (ServerFrame.care s) home)
]

-- The summons, one after the other.
unfoldable pub record_summons : PostStore → Bool → List CareSignal → Hub → Room → Hub × Room
unfolding attention_of file_attention deliver_to send_home send
record_summons store home [] h r = (h, r)
record_summons store home (s ∷ rest) h r =
    let a = attention_of store (origin_room s) s in
    record_summons store home rest (send_home home s (deliver_to s h))
      (send (ServerFrame.attention a) (file_attention a r))

unfoldable pub record_wake :
    PostStore → String → ℕ → Option (WaitState × CareSignal) → Hub → Room → Hub × Room
unfolding attention_of file_attention deliver_to send
record_wake store room now none h r = (h, r)
record_wake store room now (some (wait, wake)) h r =
    let r' =
      resolve_wait_attentions (record r { waits = Dict.insert wait.waiter wait r.waits }) room
        wait.waiter now in
    let a = attention_of store wake.room wake in
    (
      deliver_to wake h,
      send (ServerFrame.wait wait.waiter (some wait))
          (send (ServerFrame.attention a) (send (ServerFrame.care wake) (file_attention a r'))),
    )
