-- ===== src/Protocol/Settings.antt =====
-- A room's settings (crates/protocol/src/lib.rs). The numbers are u32.
use loca.Base.{ℕ, String, Bool, false, Option, none, List, []}

-- `lead` is the default.
pub data ReminderRecipient : Type 0 where
  lead everyone : ReminderRecipient
  person : String → ReminderRecipient

pub record RoomSettings : Type 0 where
  pub lead : Option String
  pub rate_limit : ℕ
  pub rate_window_secs : ℕ
  pub live : Bool
  pub archived : Bool
  pub live_timeout_secs : ℕ
  pub operators : List String
  pub turn_max_messages : ℕ
  pub turn_idle_ms : ℕ
  pub turn_max_wait_ms : ℕ
  pub care_wait_secs : ℕ
  pub care_cooldown_secs : ℕ
  pub care_max_attempts : ℕ
  pub care_context_messages : ℕ
  pub care_recipient : ReminderRecipient
  pub care_goal_secs : ℕ
  pub care_task_secs : ℕ
  pub care_silence_secs : ℕ

abbrev pub default_live_timeout : ℕ
default_live_timeout = 120

abbrev pub default_turn_max_messages : ℕ
default_turn_max_messages = 4

abbrev pub default_turn_idle_ms : ℕ
default_turn_idle_ms = 5000

abbrev pub default_turn_max_wait_ms : ℕ
default_turn_max_wait_ms = 15000

abbrev pub default_care_wait_secs : ℕ
default_care_wait_secs = 120

abbrev pub default_care_cooldown_secs : ℕ
default_care_cooldown_secs = 300

abbrev pub default_care_max_attempts : ℕ
default_care_max_attempts = 2

abbrev pub default_care_context_messages : ℕ
default_care_context_messages = 8

-- `RoomSettings::default()`
abbrev pub default_settings : RoomSettings
default_settings = record {
  lead = none;
  rate_limit = 10;
  rate_window_secs = 30;
  live = false;
  archived = false;
  live_timeout_secs = 120;
  operators = [];
  turn_max_messages = default_turn_max_messages;
  turn_idle_ms = default_turn_idle_ms;
  turn_max_wait_ms = default_turn_max_wait_ms;
  care_wait_secs = default_care_wait_secs;
  care_cooldown_secs = default_care_cooldown_secs;
  care_max_attempts = default_care_max_attempts;
  care_context_messages = default_care_context_messages;
  care_recipient = ReminderRecipient.lead;
  care_goal_secs = 0;
  care_task_secs = 0;
  care_silence_secs = 0;
}

-- The body of a settings change: a field left `none` keeps its value.
pub record SetSettings : Type 0 where
  pub rate_limit : Option ℕ
  pub rate_window_secs : Option ℕ
  pub live : Option Bool
  pub archived : Option Bool
  pub live_timeout_secs : Option ℕ
  pub operators : Option (List String)
  pub turn_max_messages : Option ℕ
  pub turn_idle_ms : Option ℕ
  pub turn_max_wait_ms : Option ℕ
  pub care_wait_secs : Option ℕ
  pub care_cooldown_secs : Option ℕ
  pub care_max_attempts : Option ℕ
  pub care_context_messages : Option ℕ
  pub care_recipient : Option ReminderRecipient
  pub care_goal_secs : Option ℕ
  pub care_task_secs : Option ℕ
  pub care_silence_secs : Option ℕ
