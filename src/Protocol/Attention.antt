-- ===== src/Protocol/Attention.antt =====
-- Attention records and care signals (crates/protocol/src/lib.rs).
use loca.Base.{
  ℕ, String, ◌≡◌, ◌↔◌, Bool, true, false, Option, List, arith, Eq, string_eq, ◌==◌, if◌then◌else◌,
}
use loca.Protocol.Chat.{Message}

pub data CareReason : Type 0 where
  manual direct_summon wait_overdue wait_cycle wait_replied : CareReason
  goal_reminder task_reminder room_silence : CareReason

abbrev pub is_wait_cycle : CareReason → Bool
is_wait_cycle CareReason.wait_cycle = true
is_wait_cycle _ = false

pub data AttentionAudience : Type 0 where
  lead : AttentionAudience
  person : String → AttentionAudience
  group : List String → AttentionAudience

-- `opened` is `Open` of the source.
pub data AttentionStatus : Type 0 where
  opened claimed resolved : AttentionStatus

abbrev pub attention_status_beq : AttentionStatus → AttentionStatus → Bool
attention_status_beq AttentionStatus.opened AttentionStatus.opened = true
attention_status_beq AttentionStatus.claimed AttentionStatus.claimed = true
attention_status_beq AttentionStatus.resolved AttentionStatus.resolved = true
attention_status_beq _ _ = false

pub attention_status_beq_iff : (a b : AttentionStatus) → (attention_status_beq a b ≡ true) ↔ (a ≡ b)
attention_status_beq_iff a b = ground arith

instance abbrev pub attention_status_eq : Eq AttentionStatus
attention_status_eq = record {
  equals = attention_status_beq;
  equals_iff = attention_status_beq_iff;
}

pub record Attention : Type 0 where
  pub id : String
  pub room : String
  pub reason : CareReason
  pub subject : String
  pub audience : AttentionAudience
  pub owner : Option String
  pub group : Option String
  pub participants : List String
  pub created_by : String
  pub created_at : ℕ
  pub attempt : ℕ
  pub escalated : Bool
  pub status : AttentionStatus
  pub delivered_at : Option ℕ
  pub claimed_by : Option String
  pub claimed_at : Option ℕ
  pub resolved_at : Option ℕ

pub data ReminderState : Type 0 where
  running overdue stalled : ReminderState

pub record CareSignal : Type 0 where
  pub id : String
  pub attention_id : String
  pub room : String
  pub source_room : String
  pub reason : CareReason
  pub audience : AttentionAudience
  pub owner : Option String
  pub owner_principal_id : Option String
  pub group : Option String
  pub target : Option String
  pub participants : List String
  pub subject : String
  pub created_by : String
  pub context : List Message
  pub attempt : ℕ
  pub at : ℕ
  pub escalated : Bool
  pub state : ReminderState

unfoldable pub origin_room : CareSignal → String
origin_room s = if s.source_room == "" then s.room else s.source_room

pub record CreateAttention : Type 0 where
  pub subject : String
  pub audience : AttentionAudience
  pub by : String
