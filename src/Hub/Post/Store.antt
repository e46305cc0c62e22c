-- ===== src/Hub/Post/Store.antt =====
-- What `post` asks of the persistent store and what it hands it, the reasons for a refusal, and
-- the stages before the room is locked (crates/server/src/hub.rs).
use loca.Base.{
  ℕ, String, Bool, true, false, Option, none, some, List, [], ◌∷◌, ◌++◌, ◌==◌, string_eq,
  if◌then◌else◌, any, ltb, length, Answer, got, Result, ok, err,
}
use loca.Protocol.Chat.{Attachment, Message, ChatMode}
use loca.Protocol.Settings.{RoomSettings}
use loca.Protocol.Work.{WaitState}
use loca.Protocol.Attention.{CareSignal, Attention}
use loca.Hub.State.{max_attachments_per_message}

pub data PostReject : Type 0 where
  paused not_allowed muted banned archived deleted storage unknown_attachment : PostReject
  not_your_turn : Option String → PostReject
  rate_limited : ℕ → PostReject
  too_many_attachments : ℕ → PostReject

-- The room's row, written with a message that advances the turn.
abbrev pub RoomRow : Type 0
RoomRow = Option (ChatMode × RoomSettings)

-- The operation's key: principal and operation id.
abbrev pub Operation : Type 0
Operation = Option (String × String)

-- The one transaction that stores a message and what goes with it.
pub data Write : Type 0 where
  message : Message → Operation → Write
  message_with_room : Message → ChatMode → RoomSettings → Operation → Write
  message_with_care : Message → RoomRow → Operation → String → List CareSignal → Write
  message_with_wait_wake :
      Message → RoomRow → Operation → String → String → ℕ → WaitState → CareSignal → Write

-- The store's answers during one post. `vanished_attachment` is the second look at an attachment,
-- after a write has failed.
pub record PostStore : Type 0 where
  pub message_by_operation : String → String → String → Answer (Option Message)
  pub resolve_room_attachment : String → String → Option Attachment
  pub message_owner : String → ℕ → Answer (Option String)
  pub insert : Write → Bool
  pub vanished_attachment : String → String → Bool
  pub attention : String → Option Attention

-- `filter(|id| !id.is_empty())`
unfoldable pub non_empty : Option String → Option String
non_empty none = none
non_empty (some s) = if s == "" then none else some s

-- The message that an earlier post of this operation stored.
unfoldable pub stored_reply : PostStore → String → String → Option String → Answer (Option Message)
stored_reply store room principal none = got none
stored_reply store room principal (some id) = store.message_by_operation room principal id

-- Each id once, in the order of its first citation.
unfoldable pub resolve_ids :
    PostStore → String → List String → List Attachment → Result (List Attachment) PostReject
resolve_ids store room [] resolved = ok resolved
resolve_ids store room (id ∷ ids) resolved = elim (any (λ a. a.id == id) resolved) [
  | true ↦ resolve_ids store room ids resolved
  | false ↦ elim (store.resolve_room_attachment room id) [
    | none ↦ err PostReject.unknown_attachment
    | some a ↦ resolve_ids store room ids (resolved ++ a ∷ [])
  ]
]

unfoldable pub resolve_attachments :
    PostStore → String → List String → Result (List Attachment) PostReject
resolve_attachments store room ids =
    if ltb max_attachments_per_message (length ids)
    then err (PostReject.too_many_attachments max_attachments_per_message)
    else resolve_ids store room ids []
