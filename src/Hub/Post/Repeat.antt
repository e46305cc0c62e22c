-- ===== src/Hub/Post/Repeat.antt =====
-- Repeating an operation at the hub: the answer of the second post.
use loca.Base.{
  ℕ, String, Bool, true, false, Option, none, some, List, ◌≡◌, refl, sym, ◌∙◌, arith, string_eq,
  pair_eq, ok, err, ap, got, contains,
}
use mathlib.Core.Path.{subst₂}
use loca.Base.Dict
use loca.Base.Dict.{Dict, AllEntries}
use loca.Protocol.Chat.{Attachment, Message, ChatMode}
use loca.Hub.State.{Room, Hub, room_of, put_room, is_deleted, new_room}
use loca.Hub.Seats.Readers.{room_of-put_room}
use loca.Hub.Attention.Resolution.Frame.{core}
use loca.Hub.Post.Store.{non_empty, stored_reply, resolve_attachments}
use loca.Hub.Post.Gate.{rate_gate, records_rate}
use loca.Hub.Post.Commit.{record_time, record_operation, record_turn, record_message}
use loca.Hub.Post.Core.{core-record_message, core-commit}
use loca.Hub.Post.Deliver.{Call, Outcome, remembered, post, post_locked}
use loca.Hub.Post.Cases.{rated_room, Passed, posted, turn_after, stored_state, post_cases}
use loca.Hub.Post.Rooms.{post-P, saved_room, room_of-P}
use loca.Hub.Post.Replay.{OpsOk, record_operation-OpsOk, remembered-record_operation}

abbrev pub RoomOps : String → Room → Type 0
RoomOps name r = OpsOk r.operation_order r.operations

-- Every room's memory of operations is in order.
abbrev pub HubOps : Hub → Type 0
HubOps h = AllEntries RoomOps h.rooms

RoomOps-core : (name : String) (r r' : Room) → core r ≡ core r' → RoomOps name r → RoomOps name r'
unfolding core
RoomOps-core name r r' e p =
    subst₂ OpsOk (ap (λ (x : Room). x.operation_order) e) (ap (λ (x : Room). x.operations) e) p

new_room-RoomOps :
    (name : String) (h : Hub) → RoomOps name (new_room ChatMode.free h.default_settings)
unfolding new_room contains Dict.contains_key
new_room-RoomOps name h = record { once = tt; same = λ k. refl; bounded = omega arith }

-- The operations are those of the room before.
record SameOps (r r' : Room) : Type 0 where
  order : r'.operation_order ≡ r.operation_order
  operations : r'.operations ≡ r.operations

rated_ops :
    (now : ℕ) (r : Room) (sender : String) (is_admin : Bool)
    → SameOps r (rate_gate now r sender is_admin).0
unfolding rate_gate
rated_ops now r sender is_admin = record { order = ground arith; operations = ground arith }

-- The room that the operation is recorded in.
before_operation : Call → Hub → List Attachment → Option String → Room
before_operation c h attachments author =
    record_time (records_rate (room_of h c.room) c.is_admin) c.now
      (posted c h attachments author).sender
      (record_turn (turn_after c h attachments author) (rated_room c h))

record_turn_ops : (turn : Option ChatMode) (r : Room) → SameOps r (record_turn turn r)
unfolding record_turn
record_turn_ops none r = record { order = refl; operations = refl }
record_turn_ops (some mode) r = record { order = refl; operations = refl }

record_time_ops :
    (rated : Bool) (now : ℕ) (sender : String) (r : Room)
    → SameOps r (record_time rated now sender r)
unfolding record_time
record_time_ops false now sender r = record { order = refl; operations = refl }
record_time_ops true now sender r = record { order = refl; operations = refl }

SameOps-trans : {r s t : Room} → SameOps r s → SameOps s t → SameOps r t
SameOps-trans a b = record { order = b.order ∙ a.order; operations = b.operations ∙ a.operations }

before_ops :
    (c : Call) (h : Hub) (attachments : List Attachment) (author : Option String)
    → SameOps (room_of h c.room) (before_operation c h attachments author)
unfolding before_operation
before_ops c h attachments author =
    SameOps-trans (rated_ops c.now (room_of h c.room) c.body.sender c.is_admin) (
      SameOps-trans (record_turn_ops (turn_after c h attachments author) (rated_room c h)) (
        record_time_ops (records_rate (room_of h c.room) c.is_admin) c.now
          (posted c h attachments author).sender _))

SameOps-OpsOk :
    {r r' : Room}
    → SameOps r r'
    → OpsOk r.operation_order r.operations
    → OpsOk r'.operation_order r'.operations
SameOps-OpsOk s p = subst₂ OpsOk (sym s.order) (sym s.operations) p

SameOps-remembered :
    {r r' : Room} (principal : String) (op : Option String)
    → SameOps r r'
    → remembered r' principal op ≡ remembered r principal op
unfolding remembered
SameOps-remembered principal none s = refl
SameOps-remembered principal (some id) s = ap (Dict.lookup (principal, id)) s.operations

message_ops : (room : String) (m : Message) (r : Room) → SameOps r (record_message room m r)
unfolding core
message_ops room m r = record {
  order = ap (λ (x : Room). x.operation_order) (core-record_message room m r);
  operations = ap (λ (x : Room). x.operations) (core-record_message room m r);
}

-- The room with the operation recorded.
with_operation : Call → Hub → List Attachment → Option String → Room
unfolding before_operation
with_operation c h attachments author =
    record_operation (non_empty c.body.op_id) c.principal (posted c h attachments author)
      (before_operation c h attachments author)

with_operation-OpsOk :
    (c : Call) (h : Hub) (attachments : List Attachment) (author : Option String)
    → Passed c h
    → RoomOps c.room (room_of h c.room)
    → RoomOps c.room (with_operation c h attachments author)
unfolding with_operation
with_operation-OpsOk c h attachments author p old =
    let before = before_ops c h attachments author in
    record_operation-OpsOk (non_empty c.body.op_id) c.principal (posted c h attachments author)
      (before_operation c h attachments author)
      (SameOps-remembered c.principal (non_empty c.body.op_id) before ∙ p.unknown)
      (SameOps-OpsOk before old)

saved_ops :
    (c : Call) (h : Hub) (attachments : List Attachment) (author : Option String)
    → SameOps (with_operation c h attachments author) (saved_room c h attachments author)
unfolding with_operation
saved_ops c h attachments author =
    message_ops c.room (posted c h attachments author) (with_operation c h attachments author)

saved-RoomOps :
    (c : Call) (h : Hub) (attachments : List Attachment) (author : Option String)
    → Passed c h
    → RoomOps c.room (room_of h c.room)
    → RoomOps c.room (saved_room c h attachments author)
saved-RoomOps c h attachments author p old =
    SameOps-OpsOk (saved_ops c h attachments author)
      (with_operation-OpsOk c h attachments author p old)

-- A post keeps every room's memory of operations in order: each accepted id once, and at most 200.
pub post-HubOps : (c : Call) (h : Hub) → HubOps h → HubOps (post c h).0
post-HubOps c h all =
    post-P RoomOps RoomOps-core c h (new_room-RoomOps c.room h)
      (SameOps-OpsOk (rated_ops c.now (room_of h c.room) c.body.sender c.is_admin))
      (saved-RoomOps c h) all

stored_ops :
    (c : Call) (h : Hub) (attachments : List Attachment) (author : Option String)
    → SameOps
        (saved_room c h attachments author)
        (room_of (stored_state c h attachments author) c.room)
unfolding core
stored_ops c h attachments author = record {
  order = ap (λ (x : Room). x.operation_order) (core-commit c _ _ _ _ _ _ _ _);
  operations = ap (λ (x : Room). x.operations) (core-commit c _ _ _ _ _ _ _ _);
}

-- The room remembers the accepted message under its operation.
abbrev Remembers : Call → String → Hub × Outcome → Type 0
Remembers c id (h', ok m) = remembered (room_of h' c.room) c.principal (some id) ≡ some m
Remembers c id (h', err why) = Unit

stored-remembered :
    (c : Call) (h : Hub) (id : String) (attachments : List Attachment) (author : Option String)
    → non_empty c.body.op_id ≡ some id
    → Passed c h
    → RoomOps c.room (room_of h c.room)
    → remembered (room_of (stored_state c h attachments author) c.room) c.principal (some id)
      ≡ some (posted c h attachments author)
unfolding with_operation
stored-remembered c h id attachments author named p old =
    let before = before_ops c h attachments author in
    SameOps-remembered c.principal (some id) (stored_ops c h attachments author)
    ∙ SameOps-remembered c.principal (some id) (saved_ops c h attachments author)
    ∙ rw named (
        remembered-record_operation id c.principal (posted c h attachments author)
          (before_operation c h attachments author)
          (SameOps-remembered c.principal (some id) before ∙ rw named at p.unknown)
          (SameOps-OpsOk before old))

post-Remembers :
    (c : Call) (h : Hub) (id : String)
    → non_empty c.body.op_id ≡ some id
    → stored_reply c.store c.room c.principal (some id) ≡ got none
    → HubOps h
    → Remembers c id (post c h)
post-Remembers c h id named unknown all =
    post_cases (Remembers c id) c h (λ why. tt) (λ m e. absurd (lost m (rw named at e)))
      (λ m e. rw (room_of-put_room h c.room _) (rw named at e)) (λ why. tt) (λ why. tt)
      (λ attachments author why p. tt)
      (λ attachments author p e. stored-remembered c h id attachments author named p old)
  where
    old : RoomOps c.room (room_of h c.room)
    old = room_of-P RoomOps RoomOps-core h c.room (new_room-RoomOps c.room h) all

    lost : (m : Message) → stored_reply c.store c.room c.principal (some id) ≡ got (some m) → ⊥
    lost m e = cc

Remembers-ok :
    (c : Call) (id : String) (s : Hub × Outcome) (m : Message)
    → Remembers c id s
    → s.1 ≡ ok m
    → remembered (room_of s.0 c.room) c.principal (some id) ≡ some m
Remembers-ok c id (h', ok m') m r e = r ∙ cc
Remembers-ok c id (h', err why) m r e = cc

post-remembered :
    (c : Call) (h : Hub) (m : Message)
    → is_deleted h c.room ≡ false
    → stored_reply c.store c.room c.principal (non_empty c.body.op_id) ≡ got none
    → (attachments : List Attachment)
    → resolve_attachments c.store c.room c.body.attachments ≡ ok attachments
    → remembered (room_of h c.room) c.principal (non_empty c.body.op_id) ≡ some m
    → post c h ≡ (put_room h c.room (room_of h c.room), ok m)
unfolding post post_locked
post-remembered c h m here unknown attachments found known =
    rw (here, unknown, found, known, post_locked)

-- A retry on a server without a database: the second post of the same operation by the same
-- principal in the same room, whatever its text, is answered by the first one's message, and the
-- room is left as it was. (The rooms' memories of operations are in order, the room is not sealed
-- meanwhile, and what the retry cites is still there.)
pub post_twice :
    (c : Call) (h : Hub) (retry : Call) (id : String) (m : Message) (attachments : List Attachment)
    → retry.room ≡ c.room
    → retry.principal ≡ c.principal
    → non_empty c.body.op_id ≡ some id
    → non_empty retry.body.op_id ≡ some id
    → stored_reply c.store c.room c.principal (some id) ≡ got none
    → stored_reply retry.store retry.room retry.principal (some id) ≡ got none
    → is_deleted (post c h).0 retry.room ≡ false
    → resolve_attachments retry.store retry.room retry.body.attachments ≡ ok attachments
    → HubOps h
    → (post c h).1 ≡ ok m
    → post retry (post c h).0 ≡ (put_room (post c h).0 c.room (room_of (post c h).0 c.room), ok m)
post_twice c h retry id m attachments room who named again unknown unknown' here found all e = rw (
  post-remembered retry (post c h).0 m here (rw again unknown') attachments found (
      rw (again, room, who)
        (Remembers-ok c id (post c h) m (post-Remembers c h id named unknown all) e)),
  room,
)
