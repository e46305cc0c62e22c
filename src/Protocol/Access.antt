-- ===== src/Protocol/Access.antt =====
-- Invitations, memberships and moderation actions (crates/protocol/src/lib.rs).
use loca.Base.{ℕ, String, Bool, Option, List}
use loca.Protocol.Chat.{SenderType}

pub record Invite : Type 0 where
  pub token : String
  pub room : String
  pub member : String
  pub name : String
  pub kind : String
  pub issued_at : ℕ
  pub issued_by : String

pub record Membership : Type 0 where
  pub token : String
  pub name : String
  pub kind : String
  pub joined_at : ℕ
  pub admitted_by : String

pub data ModAction : Type 0 where
  mute unmute kick ban release unban : ModAction

pub record ModState : Type 0 where
  pub muted : List String
  pub banned : List String

pub record CreateSession : Type 0 where
  pub name : String
  pub kind : Option SenderType
  pub runtime : Option String
  pub capabilities : List String

pub record SessionInfo : Type 0 where
  pub participant_id : String
  pub session_token : String
  pub name : String
  pub admin : Bool
  pub expires_at : Option ℕ
