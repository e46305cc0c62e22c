-- ===== src/Hub/State.antt =====
-- The records `Room` and `Hub`, and access to a room (crates/server/src/hub.rs). The notes, the
-- journal, the pairing code, the adapters' health and the rate limit on join requests are left out.
use loca.Base.{
  ℕ, String, Bool, false, not, ◌&&◌, Option, none, some, List, [], ◌∷◌, ◌==◌, string_eq, unwrap_or,
  contains,
}
use loca.Base.Dict
use loca.Base.Dict.{Dict}
use loca.Protocol.Chat.{SenderType, Message, ChatMode}
use loca.Protocol.Settings.{RoomSettings}
use loca.Protocol.Work.{Task, Goal, WaitState}
use loca.Protocol.Attention.{Attention}
use loca.Protocol.Access.{Invite, Membership}
use loca.Protocol.Frames.{ServerFrame}

abbrev pub history_limit : ℕ
history_limit = 200

abbrev pub max_attachments_per_message : ℕ
max_attachments_per_message = 4

-- The value of `Room::members`: display name, kind, live connections.
pub record Seat : Type 0 where
  pub name : String
  pub kind : SenderType
  pub count : ℕ

pub record CareMark : Type 0 where
  pub last_signal_at : ℕ
  pub signal_count : ℕ

pub record Room : Type 0 where
  pub history : List Message
  pub operations : Dict (String × String) Message
  pub operation_order : List (String × String)
  pub sent : List ServerFrame
  pub members : Dict String Seat
  pub mode : ChatMode
  pub settings : RoomSettings
  pub post_times : Dict String (List ℕ)
  pub muted : List String
  pub banned : List String
  pub last_msg_ms : ℕ
  pub tasks : Dict ℕ Task
  pub next_task_id : ℕ
  pub goals : Dict ℕ Goal
  pub next_goal_id : ℕ
  pub waits : Dict String WaitState
  pub care_marks : Dict String CareMark
  pub attentions : Dict String Attention

-- `Room::with`
unfoldable pub new_room : ChatMode → RoomSettings → Room
new_room mode settings = record {
  history = [];
  operations = [];
  operation_order = [];
  sent = [];
  members = [];
  mode = mode;
  settings = settings;
  post_times = [];
  muted = [];
  banned = [];
  last_msg_ms = 0;
  tasks = [];
  next_task_id = 1;
  goals = [];
  next_goal_id = 1;
  waits = [];
  care_marks = [];
  attentions = [];
}

pub data BuildingRole : Type 0 where
  master smaster member : BuildingRole

-- The identity that a session token resolves to.
pub record SessionIdentity : Type 0 where
  pub principal_id : Option String
  pub building_role : BuildingRole
  pub name : String
  pub kind : SenderType
  pub loca : Option String
  pub member : Option String
  pub admin : Bool
  pub expires_at : ℕ

pub data LobbyEvent : Type 0 where
  called : String → String → String → LobbyEvent
  membership_revoked : String → LobbyEvent
  membership_suspended : String → LobbyEvent

pub record Hub : Type 0 where
  pub rooms : Dict String Room
  pub deleted : List String
  pub next_id : ℕ
  pub condition_generation : ℕ
  pub admin_token : String
  pub room_token : String
  pub default_settings : RoomSettings
  pub members : Dict String Membership
  pub smasters : Dict String String
  pub sessions : Dict String SessionIdentity
  pub require_invite : Bool
  pub invites : Dict String Invite
  pub lobby_sent : List LobbyEvent
  pub lobby_online : Dict String ℕ
  pub care_deliveries : Dict String String
  pub home_room : String
  pub reserved_room : String
  pub caretakers : List String

-- `tx.send`
unfoldable pub send : ServerFrame → Room → Room
send f r = record r { sent = f ∷ r.sent }

-- The room that `room_mut` gives: the one in the map, or a new one.
unfoldable pub room_of : Hub → String → Room
room_of h room = unwrap_or (new_room ChatMode.free h.default_settings) (Dict.lookup room h.rooms)

-- What a change through the reference of `room_mut` leaves in the map.
unfoldable pub put_room : Hub → String → Room → Hub
put_room h room r = record h { rooms = Dict.insert room r h.rooms }

unfoldable pub room_exists : Hub → String → Bool
room_exists h room = Dict.contains_key room h.rooms

unfoldable pub is_deleted : Hub → String → Bool
is_deleted h room = not (room == h.home_room) && contains room h.deleted

unfoldable pub is_archived : Hub → String → Bool
is_archived h room = elim (Dict.lookup room h.rooms) [ none ↦ false | some r ↦ r.settings.archived ]

unfoldable pub is_writable : Hub → String → Bool
unfolding is_deleted is_archived
is_writable h room = not (is_deleted h room) && not (is_archived h room)

unfoldable pub is_banned : Hub → String → String → Bool
is_banned h room name = elim (Dict.lookup room h.rooms) [
  | none ↦ false
  | some r ↦ contains name r.banned
]
