-- ===== src/Protocol/Health.antt =====
-- What a supervised runtime reports of itself, and what is shown of it (crates/protocol/src/lib.rs).
use loca.Base.{ℕ, String, Bool, Option}

pub record RuntimeHealth : Type 0 where
  pub wake : String
  pub ack : String
  pub delivery_id : Option String
  pub attention_id : Option String
  pub stored : Bool
  pub accepted : Bool
  pub first_response : Bool
  pub final_response : Bool
  pub turn_completed : Bool
  pub seen_at : ℕ
  pub progress_at : ℕ
  pub ready : Bool

pub record RuntimeHealthUpdate : Type 0 where
  pub wake : String
  pub ack : String
  pub delivery_id : Option String
  pub attention_id : Option String
  pub stored : Bool
  pub accepted : Bool
  pub first_response : Bool
  pub final_response : Bool
  pub turn_completed : Bool
