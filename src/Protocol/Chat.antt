-- ===== src/Protocol/Chat.antt =====
-- Senders, messages and chat modes (crates/protocol/src/lib.rs).
use loca.Base.{ℕ, String, ◌≡◌, ◌↔◌, Bool, true, false, Option, List, arith, Eq}

pub data SenderType : Type 0 where
  agent user : SenderType

abbrev pub sender_type_beq : SenderType → SenderType → Bool
sender_type_beq SenderType.agent SenderType.agent = true
sender_type_beq SenderType.user SenderType.user = true
sender_type_beq _ _ = false

pub sender_type_beq_iff : (a b : SenderType) → (sender_type_beq a b ≡ true) ↔ (a ≡ b)
sender_type_beq_iff a b = ground arith

instance abbrev pub sender_type_eq : Eq SenderType
sender_type_eq = record { equals = sender_type_beq; equals_iff = sender_type_beq_iff }

-- `say` is the default.
pub data MessageKind : Type 0 where
  say announce : MessageKind

abbrev pub is_say : MessageKind → Bool
is_say MessageKind.say = true
is_say MessageKind.announce = false

pub record Attachment : Type 0 where
  pub id : String
  pub sha256 : String
  pub name : String
  pub mime : String
  pub size : ℕ

pub record Message : Type 0 where
  pub id : ℕ
  pub room : String
  pub sender : String
  pub sender_type : SenderType
  pub target : Option String
  pub text : String
  pub kind : MessageKind
  pub reply_to : Option ℕ
  pub reply_to_sender : Option String
  pub ts : ℕ
  pub attachments : List Attachment

pub record Member : Type 0 where
  pub name : String
  pub kind : SenderType

pub record PostMessage : Type 0 where
  pub kind : MessageKind
  pub sender : String
  pub sender_type : SenderType
  pub target : Option String
  pub text : String
  pub reply_to : Option ℕ
  pub op_id : Option String
  pub attachments : List String

pub record MessageReaction : Type 0 where
  pub message_id : ℕ
  pub emoji : String
  pub actors : List String

pub record MessageReactionEvent : Type 0 where
  pub message_id : ℕ
  pub emoji : String
  pub actors : List String
  pub owner : String
  pub reactor : String
  pub active : Bool
  pub ts : ℕ

-- How a room's chat is gated.
pub data ChatMode : Type 0 where
  free : ChatMode
  restricted : List String → ChatMode
  round_robin : List String → ℕ → ChatMode
  paused : ChatMode
