-- ===== src/Hub/Post/Permission.antt =====
-- Who may speak: accepted posts against the moderation and the mode of the room.
use loca.Base.{
  String, Bool, true, false, Option, none, some, List, ◌≡◌, inl, inr, ◌⊎◌, arith, string_eq,
  contains, get_elem?, got, ok, err, Option-cases, Bool-cases,
}
use loca.Protocol.Chat.{Attachment, Message, ChatMode}
use loca.Hub.State.{Room, Hub, room_of}
use loca.Hub.Post.Store.{Write, non_empty, stored_reply}
use loca.Hub.Post.Gate.{gate, mode_gate}
use loca.Hub.Post.Deliver.{Call, Outcome, remembered, write_of, post}
use loca.Hub.Post.Cases.{Passed, posted, write_for, post_cases}

-- Whom a mode lets speak.
abbrev pub Speaks : ChatMode → String → Type 0
Speaks ChatMode.free sender = Unit
Speaks ChatMode.paused sender = ⊥
Speaks (ChatMode.restricted allow) sender = contains sender allow ≡ true
Speaks (ChatMode.round_robin order turn) sender = get_elem? order turn ≡ some sender

-- Who may speak in a room.
pub record MaySpeak (r : Room) (sender : String) : Type 0 where
  pub not_banned : contains sender r.banned ≡ false
  pub not_muted : contains sender r.muted ≡ false
  pub speaks : Speaks r.mode sender

-- The answer is the message of an earlier post of this operation.
abbrev pub Repeats : Call → Hub → Message → Type 0
Repeats c h m =
    (stored_reply c.store c.room c.principal (non_empty c.body.op_id) ≡ got (some m))
    ⊎ (remembered (room_of h c.room) c.principal (non_empty c.body.op_id) ≡ some m)

mode_gate-Speaks :
    (mode : ChatMode) (sender : String) → mode_gate mode sender ≡ none → Speaks mode sender
unfolding mode_gate
mode_gate-Speaks ChatMode.free sender h = tt
mode_gate-Speaks ChatMode.paused sender h = cc
mode_gate-Speaks (ChatMode.restricted allow) sender h = ground arith
mode_gate-Speaks (ChatMode.round_robin order turn) sender h =
    elim (Option-cases (get_elem? order turn)) [
      | inl e ↦ ground arith
      | inr (cur, e) ↦ ground (arith, string_eq.equals_iff cur sender)
    ]

gate-archived :
    (r : Room) (sender : String) (is_admin : Bool)
    → gate r sender is_admin ≡ none
    → r.settings.archived ≡ false
unfolding gate
gate-archived r sender is_admin h = ground arith

gate-MaySpeak : (r : Room) (sender : String) → gate r sender false ≡ none → MaySpeak r sender
unfolding gate
gate-MaySpeak r sender h = record {
  not_banned = ground arith;
  not_muted = ground arith;
  speaks = mode_gate-Speaks r.mode sender (ground arith);
}

abbrev pub Permitted : Call → Hub → Outcome → Type 0
Permitted c h (ok m) =
    Repeats c h m
    ⊎ ((room_of h c.room).settings.archived ≡ false)
      × ((c.is_admin ≡ true) ⊎ MaySpeak (room_of h c.room) c.body.sender)
Permitted c h (err why) = Unit

Passed-Permitted :
    (c : Call) (h : Hub) (attachments : List Attachment) (author : Option String)
    → Passed c h
    → Permitted c h (ok (posted c h attachments author))
Passed-Permitted c h attachments author p = elim (Bool-cases c.is_admin) [
  | inl admin ↦ inr (gate-archived _ _ _ p.gated, inl admin)
  | inr other ↦ inr (gate-archived _ _ _ p.gated, inr (gate-MaySpeak _ _ (rw other at p.gated)))
]

-- A post that is answered by a message repeats an earlier operation, or its room was not archived
-- and its sender is an admin or one whom moderation and mode let speak.
pub post-Permitted : (c : Call) (h : Hub) → Permitted c h (post c h).1
post-Permitted c h =
    post_cases (λ (s : Hub × Outcome). Permitted c h s.1) c h (λ why. tt) (λ m e. inl (inl e))
      (λ m e. inl (inr e)) (λ why. tt) (λ why. tt) (λ attachments author why p. tt)
      (λ attachments author p e. Passed-Permitted c h attachments author p)

-- The message in a transaction.
unfoldable pub message_in : Write → Message
message_in (Write.message m op) = m
message_in (Write.message_with_room m mode settings op) = m
message_in (Write.message_with_care m row op home calls) = m
message_in (Write.message_with_wait_wake m row op room waiter now wait wake) = m

message_in-write_of :
    (c : Call) (h : Hub) (attachments : List Attachment) (author : Option String)
    → message_in (write_for c h attachments author) ≡ posted c h attachments author
unfolding message_in write_of
message_in-write_of c h attachments author = ground arith

abbrev pub Durable : Call → Hub → Outcome → Type 0
Durable c h (ok m) = Repeats c h m ⊎ ((w : Write) × (message_in w ≡ m) × (c.store.insert w ≡ true))
Durable c h (err why) = Unit

-- A post that is answered by a message repeats an earlier operation, or the store accepted a
-- transaction with that message.
pub post-Durable : (c : Call) (h : Hub) → Durable c h (post c h).1
post-Durable c h =
    post_cases (λ (s : Hub × Outcome). Durable c h s.1) c h (λ why. tt) (λ m e. inl (inl e))
      (λ m e. inl (inr e)) (λ why. tt) (λ why. tt) (λ attachments author why p. tt)
      (λ attachments author p e.
        inr (write_for c h attachments author, message_in-write_of c h attachments author, e))
