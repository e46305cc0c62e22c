-- ===== src/Hub/Admission.antt =====
-- Requests from outside to join the building (crates/server/src/hub.rs). The map of the attempts' times has a
-- lock of its own and is a state of its own here; a source is the text of its address. What the store answers,
-- the clock and the random tokens are arguments.
pub mod Sources
use loca.Base.{
  ℕ, ◌-◌, String, Bool, true, false, not, ◌||◌, Option, none, some, List, [], ◌∷◌, ◌++◌, ◌==◌,
  string_eq, if◌then◌else◌, ltb, leb, length, is_some, unwrap_or, format, wrap_suc,
}
use loca.Base.Dict
use loca.Base.Dict.{Dict}
use loca.Protocol.Chat.{SenderType, Message, MessageKind}
use loca.Protocol.Access.{Membership}
use loca.Protocol.Frames.{ServerFrame}
use loca.Hub.State.{Room, Hub, send, room_of, put_room}
use loca.Hub.Settings.{settings_of}
use loca.Hub.Members.{member_by_name}

abbrev pub max_pending_join_requests : ℕ
max_pending_join_requests = 200

abbrev pub join_create_window_ms : ℕ
join_create_window_ms = 60000

abbrev pub join_create_max_in_window : ℕ
join_create_max_in_window = 30

-- The times that are still in the window.
unfoldable pub recent : ℕ → List ℕ → List ℕ
recent now [] = []
recent now (t ∷ times) =
    let rest = recent now times in if ltb (now - t) join_create_window_ms then t ∷ rest else rest

-- Sources without a time in the window are forgotten.
unfoldable pub reap : ℕ → Dict String (List ℕ) → Dict String (List ℕ)
unfolding recent
reap now [] = []
reap now ((source, times) ∷ m) =
    let rest = reap now m in
    elim (recent now times) [ [] ↦ rest | t ∷ kept ↦ (source, t ∷ kept) ∷ rest ]

unfoldable pub times_at : String → Dict String (List ℕ) → List ℕ
times_at source m = unwrap_or [] (Dict.lookup source m)

unfoldable pub join_request_rate_ok :
    Dict String (List ℕ) → String → ℕ → Dict String (List ℕ) × Bool
unfolding reap times_at
join_request_rate_ok m source now =
    let kept = reap now m in
    let times = times_at source kept in
    if leb join_create_max_in_window (length times)
    then (Dict.insert source times kept, false)
    else (Dict.insert source (times ++ now ∷ []) kept, true)

-- The announcement in the home room, for its lead.
unfoldable pub join_message : Hub → String → String → ℕ → Message
join_message h name kind now = record {
  id = h.next_id;
  room = h.home_room;
  sender = "loca";
  sender_type = SenderType.user;
  target = some (unwrap_or "all" (settings_of h h.home_room).lead);
  text =
      format (name ∷ " (" ∷ kind ∷ ") wants to join — approve or deny it in Join requests." ∷ []);
  kind = MessageKind.announce;
  reply_to = none;
  reply_to_sender = none;
  ts = now;
  attachments = [];
}

-- Whether the store took the message does not matter.
unfoldable pub announce_join_request : Hub → String → String → ℕ → Hub
unfolding join_message send
announce_join_request h name kind now =
    let m = join_message h name kind now in
    let r = room_of h h.home_room in
    put_room (record h { next_id = wrap_suc h.next_id }) h.home_room
      (send (ServerFrame.msg m) (record r { history = r.history ++ m ∷ [] }))

pub data JoinRequestCreate : Type 0 where
  created : (request_id request_secret : String) → JoinRequestCreate
  name_taken backlog_full : JoinRequestCreate

-- `is_pending` and `pending` are the store's answers: whether a request under that name waits, and how many do.
unfoldable pub create_join_request :
    Dict String (List ℕ)
    → Hub
    → String
    → String
    → String
    → ℕ
    → Bool
    → ℕ
    → String
    → String
    → Dict String (List ℕ) × Hub × JoinRequestCreate
unfolding join_request_rate_ok member_by_name announce_join_request
create_join_request m h name kind source now is_pending pending id secret =
    let (m', admitted) = join_request_rate_ok m source now in
    if not admitted
    then (m', h, JoinRequestCreate.backlog_full)
    else if is_some (member_by_name h name) || is_pending
    then (m', h, JoinRequestCreate.name_taken)
    else if leb max_pending_join_requests pending
    then (m', h, JoinRequestCreate.backlog_full)
    else (m', announce_join_request h name kind now, JoinRequestCreate.created id secret)

pub data ApproveTxn : Type 0 where
  committed : Membership → ApproveTxn
  already_decided name_taken no_stock failed : ApproveTxn

pub data Approve : Type 0 where
  approved already_decided name_taken no_stock failed : Approve

-- The store decides in one transaction; its new member is mirrored.
unfoldable pub approve_join_request : Hub → ApproveTxn → Hub × Approve
approve_join_request h (ApproveTxn.committed member) =
    (record h { members = Dict.insert member.token member h.members }, Approve.approved)
approve_join_request h ApproveTxn.already_decided = (h, Approve.already_decided)
approve_join_request h ApproveTxn.name_taken = (h, Approve.name_taken)
approve_join_request h ApproveTxn.no_stock = (h, Approve.no_stock)
approve_join_request h ApproveTxn.failed = (h, Approve.failed)
