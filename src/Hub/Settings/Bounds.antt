-- ===== src/Hub/Settings/Bounds.antt =====
-- The ranges that the settings keep.
use loca.Base.{◌≤◌, arith, clamp}
use loca.Protocol.Settings.{RoomSettings, SetSettings, default_settings}
use loca.Hub.Settings.{apply_settings}

pub record SettingsOk (s : RoomSettings) : Type 0 where
  pub window : 1 ≤ s.rate_window_secs
  pub packet : (1 ≤ s.turn_max_messages) × (s.turn_max_messages ≤ 16)
  pub idle : (100 ≤ s.turn_idle_ms) × (s.turn_idle_ms ≤ 30000)
  pub quiet : (s.turn_idle_ms ≤ s.turn_max_wait_ms) × (s.turn_max_wait_ms ≤ 60000)
  pub attempts : (1 ≤ s.care_max_attempts) × (s.care_max_attempts ≤ 10)
  pub context : s.care_context_messages ≤ 20

pub default_settings-SettingsOk : SettingsOk default_settings
default_settings-SettingsOk = omega arith

-- A change of the settings keeps every range that they are in, whatever it asks for.
pub apply_settings-SettingsOk :
    (q : SetSettings) (s : RoomSettings) → SettingsOk s → SettingsOk (apply_settings q s)
unfolding apply_settings clamp
apply_settings-SettingsOk q s v = record {
  window = ground arith;
  packet = ground arith;
  idle = ground arith;
  quiet = ground arith;
  attempts = ground arith;
  context = ground arith;
}
