-- ===== src/Examples/Data.antt =====
-- A small server for the examples.
use loca.Base.{String, true, false, none, some, [], ◌∷◌, got, Unicode}
use loca.Protocol.Chat.{SenderType, MessageKind, ChatMode}
use loca.Protocol.Settings.{RoomSettings, default_settings}
use loca.Protocol.Work.{Task, TaskStatus, Goal, GoalStatus, GoalCompletion, WaitState, CreateTask}
use loca.Protocol.Access.{Invite, Membership}
use loca.Hub.State.{Room, Hub}
use loca.Hub.Door.{IdentityStore}
use loca.Routes.Access.{Request}
use loca.Hub.Post.Store.{PostStore}
use loca.Hub.Post.Deliver.{Call}

abbrev pub settings : RoomSettings
settings = record default_settings { lead = some "ada"; rate_limit = 2; operators = "ada" ∷ [] }

abbrev pub plan : Task
plan = record {
  id = 1;
  room = "atelier";
  title = "plan";
  created_by = "ada";
  from_message = none;
  assigned_to = none;
  status = TaskStatus.opened;
  created_at = 5;
  progress_at = 5;
  closed_at = none;
}

abbrev pub build : Task
build = record plan {
  id = 2;
  title = "build";
  assigned_to = some "bot";
  status = TaskStatus.done;
  closed_at = some 7;
}

abbrev pub ship : Goal
ship = record {
  id = 1;
  room = "atelier";
  outcome = "ship";
  checkpoint = none;
  stale_after_secs = none;
  created_by = "ada";
  completion = GoalCompletion.all_tasks;
  task_ids = 1 ∷ 2 ∷ [];
  status = GoalStatus.active;
  created_at = 6;
  progress_at = 6;
  closed_at = none;
}

abbrev pub wait : String → String → WaitState
wait waiter waiting_for = record {
  room = "atelier";
  waiter = waiter;
  waiting_for = waiting_for;
  reason = "review";
  since = 8;
  last_signal_at = none;
  signal_count = 0;
}

abbrev pub atelier : Room
atelier = record {
  history = [];
  operations = [];
  operation_order = [];
  sent = [];
  members =
      ("a", record { name = "ada"; kind = SenderType.user; count = 1 })
      ∷ ("b", record { name = "bot"; kind = SenderType.agent; count = 1 })
      ∷ [];
  mode = ChatMode.round_robin ("bot" ∷ "ada" ∷ []) 0;
  settings = settings;
  post_times = [];
  muted = [];
  banned = [];
  last_msg_ms = 0;
  tasks = (1, plan) ∷ (2, build) ∷ [];
  next_task_id = 3;
  goals = (1, ship) ∷ [];
  next_goal_id = 2;
  waits = ("bot", wait "bot" "cy") ∷ ("cy", wait "cy" "ada") ∷ [];
  care_marks = [];
  attentions = [];
}

abbrev pub davet : String → String → String → Invite
davet token member name = record {
  token = token;
  room = "atelier";
  member = member;
  name = name;
  kind = "agent";
  issued_at = 1;
  issued_by = "ada";
}

abbrev pub membership : Membership
membership = record {
  token = "m3";
  name = "cy";
  kind = "agent";
  joined_at = 1;
  admitted_by = "ada";
}

abbrev pub server : Hub
server = record {
  rooms = ("atelier", atelier) ∷ [];
  deleted = [];
  next_id = 1;
  condition_generation = 10;
  admin_token = "key";
  room_token = "";
  default_settings = default_settings;
  members = ("m3", membership) ∷ [];
  smasters = [];
  sessions = [];
  require_invite = true;
  invites = ("t1", davet "t1" "m1" "ada") ∷ ("t2", davet "t2" "m2" "bot") ∷ [];
  lobby_sent = [];
  lobby_online = [];
  care_deliveries = [];
  home_room = "lobby";
  reserved_room = "office";
  caretakers = [];
}

-- A store without a database.
abbrev pub memory_only : PostStore
memory_only = record {
  message_by_operation = λ room principal id. got none;
  resolve_room_attachment = λ room id. none;
  message_owner = λ room id. got none;
  insert = λ w. true;
  vanished_attachment = λ room id. false;
  attention = λ id. none;
}

-- Unicode tables that know one word.
abbrev pub plain : Unicode
plain = record { to_lowercase = λ s. s; fragments = λ s. s ∷ [] }

abbrev pub hello : Call
hello = record {
  room = "atelier";
  body = record {
    kind = MessageKind.say;
    sender = "bot";
    sender_type = SenderType.agent;
    target = none;
    text = "hello";
    reply_to = none;
    op_id = some "op1";
    attachments = [];
  };
  is_admin = false;
  principal = "b";
  now = 1000;
  delivery = "d1";
  store = memory_only;
  unicode = plain;
}

-- The same post, sent again a second later.
abbrev pub hello_again : Call
hello_again = record hello { now = 2000 }

-- A store that persists and knows nobody.
abbrev pub register : IdentityStore
register = record {
  is_persistent = true;
  member_suspended = λ t. false;
  credential_is_revoked = λ t. false;
  principal_for_credential = λ t. none;
  active_principal = λ id. none;
  principal_id_for_member_record = λ t. none;
  principal_session_active = λ t now. true;
  loca_operator = λ room. none;
}

-- A request under the admin's key.
abbrev pub asks : Request
asks = record {
  admin = some "key";
  session = none;
  room = none;
  has_session = false;
  identity = register;
  require_sessions = false;
  now = 60;
  trim = λ s. s;
}

abbrev pub more : CreateTask
more = record { title = "more"; from_message = none; assigned_to = none; by = "ada" }
