-- ===== src/Hub/Post/Deliver.antt =====
-- The whole of `Hub::post`, from its stages (crates/server/src/hub.rs).
use loca.Base.{
  ℕ, String, Bool, Option, none, some, List, [], ◌∷◌, any, pair_eq, string_eq, if◌then◌else◌,
  failed, got, Result, ok, err, Unicode, wrap_suc,
}
use loca.Base.Dict
use loca.Protocol.Chat.{Attachment, Message, PostMessage, ChatMode}
use loca.Protocol.Work.{WaitState}
use loca.Protocol.Attention.{CareSignal}
use loca.Hub.State.{Room, Hub, room_of, put_room, is_deleted, room_exists}
use loca.Hub.Clock.{next_generation}
use loca.Hub.Post.Store.{
  PostReject, PostStore, Write, Operation, RoomRow, non_empty, stored_reply, resolve_attachments,
}
use loca.Hub.Post.Gate.{gate, rate_gate, records_rate}
use loca.Hub.Post.Compose.{reply_author, compose, summons, wait_wake, advance_turn}
use loca.Hub.Post.Commit.{
  record_time, record_operation, record_turn, record_message, record_summons, record_wake,
}

-- A call of `post`: its arguments, the clock's reading, the random delivery id, the store's
-- answers and the Unicode tables.
pub record Call : Type 0 where
  pub room : String
  pub body : PostMessage
  pub is_admin : Bool
  pub principal : String
  pub now : ℕ
  pub delivery : String
  pub store : PostStore
  pub unicode : Unicode

abbrev pub Outcome : Type 0
Outcome = Result Message PostReject

-- The message accepted by an earlier run of the same operation, as the room remembers it.
unfoldable pub remembered : Room → String → Option String → Option Message
remembered r principal none = none
remembered r principal (some id) = Dict.lookup (principal, id) r.operations

-- The row of the room that is written beside the message if the turn moves.
unfoldable pub row_of : Option ChatMode → Room → RoomRow
row_of none r = none
row_of (some mode) r = some (mode, r.settings)

unfoldable pub operation_of : String → Option String → Operation
operation_of principal none = none
operation_of principal (some id) = some (principal, id)

plain_write : Message → RoomRow → Operation → Write
plain_write m none op = Write.message m op
plain_write m (some (mode, settings)) op = Write.message_with_room m mode settings op

-- Which transaction stores the message.
unfoldable pub write_of :
    Call
    → Hub
    → Message
    → RoomRow
    → Operation
    → List CareSignal
    → Option (WaitState × CareSignal)
    → Write
unfolding plain_write
write_of c h m row op calls (some (wait, wake)) =
    Write.message_with_wait_wake m row op c.room wait.waiter c.now wait wake
write_of c h m row op [] none = plain_write m row op
write_of c h m row op (s ∷ rest) none = Write.message_with_care m row op h.home_room (s ∷ rest)

-- Why the write failed: an attachment that has vanished, or the store.
unfoldable pub write_failure : Call → List Attachment → PostReject
write_failure c attachments =
    if any (λ a. c.store.vanished_attachment c.room a.id) attachments
    then PostReject.unknown_attachment
    else PostReject.storage

-- The state after a stored message.
unfoldable pub commit :
    Call
    → Hub
    → Room
    → Option String
    → Message
    → Option ChatMode
    → List CareSignal
    → Option (WaitState × CareSignal)
    → Bool
    → Hub
unfolding record_time record_operation record_turn record_message record_summons record_wake
commit c h r op m turn calls wake rated =
    let r₁ = record_time rated c.now m.sender (record_turn turn r) in
    let r₂ = record_message c.room m (record_operation op c.principal m r₁) in
    let (h₃, r₃) = record_summons c.store (room_exists h h.home_room) calls h r₂ in
    let (h₄, r₄) = record_wake c.store c.room c.now wake h₃ r₃ in put_room h₄ c.room r₄

-- The id and the generation are spent although the store may refuse the message.
unfoldable pub generation_of : Call → Hub → Room → ℕ
generation_of c h r = next_generation h.condition_generation c.now r.last_msg_ms

unfoldable pub spent : Call → Hub → Room → Hub
spent c h r = record h { next_id = wrap_suc h.next_id; condition_generation = generation_of c h r }

unfoldable pub message_of : Call → Hub → Room → List Attachment → Option String → Message
unfolding compose
message_of c h r attachments author =
    compose c.room c.body attachments author h.next_id (generation_of c h r)

unfoldable pub calls_of : Call → Hub → Message → List CareSignal
unfolding summons
calls_of c h m = summons c.unicode h c.room c.now m

unfoldable pub wake_of : Call → Hub → Room → Message → Hub × Option (WaitState × CareSignal)
unfolding wait_wake
wake_of c h r m = wait_wake c.delivery c.room c.now (spent c h r) r m (calls_of c h m)

-- From the accepted request on: compose, store, commit.
unfoldable pub deliver :
    Call → Hub → Room → Option String → List Attachment → Option String → Bool → Hub × Outcome
unfolding write_failure operation_of
deliver c h r op attachments author rated =
    let m = message_of c h r attachments author in
    let (h', wake) = wake_of c h r m in
    let calls = calls_of c h m in
    let turn = advance_turn r.mode m.sender in
    let write = write_of c h m (row_of turn r) (operation_of c.principal op) calls wake in
    if c.store.insert write
    then (commit c h' r op m turn calls wake rated, ok m)
    else (put_room h' c.room r, err (write_failure c attachments))

-- The stages under the room's lock.
unfoldable pub post_locked : Call → Hub → Option String → List Attachment → Hub × Outcome
post_locked c h op attachments =
    let r = room_of h c.room in
    elim (remembered r c.principal op) [
      | some m ↦ (put_room h c.room r, ok m)
      | none ↦ elim (gate r c.body.sender c.is_admin) [
        | some why ↦ (put_room h c.room r, err why)
        | none ↦
            let (r', limited) = rate_gate c.now r c.body.sender c.is_admin in
            elim limited [
              | some secs ↦ (put_room h c.room r', err (PostReject.rate_limited secs))
              | none ↦ elim (reply_author c.store c.room r' c.body) [
                | failed ↦ (put_room h c.room r', err PostReject.storage)
                | got author ↦ deliver c h r' op attachments author (records_rate r c.is_admin)
              ]
            ]
      ]
    ]

unfoldable pub post : Call → Hub → Hub × Outcome
post c h =
    if is_deleted h c.room
    then (h, err PostReject.deleted)
    else elim (stored_reply c.store c.room c.principal (non_empty c.body.op_id)) [
      | failed ↦ (h, err PostReject.storage)
      | got stored ↦ elim stored [
        | some m ↦ (h, ok m)
        | none ↦ elim (resolve_attachments c.store c.room c.body.attachments) [
          | err why ↦ (h, err why)
          | ok attachments ↦ post_locked c h (non_empty c.body.op_id) attachments
        ]
      ]
    ]
