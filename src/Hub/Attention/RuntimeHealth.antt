-- ===== src/Hub/Attention/RuntimeHealth.antt =====
-- Whether a runtime is ready to be woken (crates/server/src/hub/attention/runtime_health.rs). The hub's map of
-- reports has a lock of its own and is a state of its own here; `now` is the clock's reading.
pub mod Stuck
use loca.Base.{
  ℕ, ◌-◌, String, Bool, true, false, not, ◌&&◌, ◌||◌, Option, none, some, [], ◌∷◌, ◌==◌, string_eq,
  option_eq, if◌then◌else◌, ltb, leb, map_option, contains,
}
use loca.Base.Dict
use loca.Base.Dict.{Dict}
use loca.Protocol.Health.{RuntimeHealth, RuntimeHealthUpdate}

pub record RuntimeRecord : Type 0 where
  pub wake : String
  pub ack : String
  pub delivery_id : Option String
  pub attention_id : Option String
  pub stored : Bool
  pub accepted : Bool
  pub first_response : Bool
  pub final_response : Bool
  pub turn_completed : Bool
  pub seen_at : ℕ
  pub progress_at : ℕ

abbrev pub runtime_seen_ttl_ms : ℕ
runtime_seen_ttl_ms = 20000

abbrev pub runtime_wake_grace_ms : ℕ
runtime_wake_grace_ms = 10000

abbrev pub runtime_ack_grace_ms : ℕ
runtime_ack_grace_ms = 360000

unfoldable pub runtime_record_ready : RuntimeRecord → ℕ → Bool
runtime_record_ready r now =
    if ltb runtime_seen_ttl_ms (now - r.seen_at)
    then false
    else if r.wake == "IDLE"
    then true
    else if r.wake == "OK"
    then not (r.ack == "PENDING") || leb (now - r.progress_at) runtime_ack_grace_ms
    else if r.wake == "RUNNING"
    then leb (now - r.progress_at) runtime_wake_grace_ms
    else false

abbrev pub health_of : RuntimeRecord → ℕ → RuntimeHealth
health_of r now = record {
  wake = r.wake;
  ack = r.ack;
  delivery_id = r.delivery_id;
  attention_id = r.attention_id;
  stored = r.stored;
  accepted = r.accepted;
  first_response = r.first_response;
  final_response = r.final_response;
  turn_completed = r.turn_completed;
  seen_at = r.seen_at;
  progress_at = r.progress_at;
  ready = runtime_record_ready r now;
}

unfoldable pub runtime_health_for : Dict String RuntimeRecord → String → ℕ → Option RuntimeHealth
unfolding runtime_record_ready
runtime_health_for m name now = map_option (λ r. health_of r now) (Dict.lookup name m)

abbrev pub same_flag : Bool → Bool → Bool
same_flag true b = b
same_flag false b = not b

-- Whether the report repeats what is on record.
unfoldable pub is_same_report : RuntimeRecord → RuntimeHealthUpdate → Bool
is_same_report r u =
    r.wake == u.wake
    && r.ack == u.ack
    && r.delivery_id == u.delivery_id
    && r.attention_id == u.attention_id
    && same_flag r.stored u.stored
    && same_flag r.accepted u.accepted
    && same_flag r.first_response u.first_response
    && same_flag r.final_response u.final_response
    && same_flag r.turn_completed u.turn_completed

-- `is_some_and`, on the length in bytes
abbrev pub is_too_long : (String → ℕ) → ℕ → Option String → Bool
is_too_long byte_len bound none = false
is_too_long byte_len bound (some x) = ltb bound (byte_len x)

unfoldable pub is_valid_report : (String → ℕ) → RuntimeHealthUpdate → Bool
unfolding contains
is_valid_report byte_len u =
    contains u.wake
      ("IDLE" ∷ "RUNNING" ∷ "OK" ∷ "FAILED" ∷ "RESTARTING" ∷ "MANUAL" ∷ "UNVERIFIED" ∷ [])
    && contains u.ack ("IDLE" ∷ "PENDING" ∷ "OK" ∷ "UNVERIFIED" ∷ [])
    && not (is_too_long byte_len 200 u.delivery_id)
    && not (is_too_long byte_len 300 u.attention_id)

-- When the runtime last changed what it reports.
unfoldable pub progress_of : Option RuntimeRecord → RuntimeHealthUpdate → ℕ → ℕ
unfolding is_same_report
progress_of none u now = now
progress_of (some r) u now = if is_same_report r u then r.progress_at else now

abbrev pub record_of : RuntimeHealthUpdate → ℕ → ℕ → RuntimeRecord
record_of u seen progress = record {
  wake = u.wake;
  ack = u.ack;
  delivery_id = u.delivery_id;
  attention_id = u.attention_id;
  stored = u.stored;
  accepted = u.accepted;
  first_response = u.first_response;
  final_response = u.final_response;
  turn_completed = u.turn_completed;
  seen_at = seen;
  progress_at = progress;
}

-- `later` is the reading by which the answer is computed.
unfoldable pub report_runtime_health :
    (String → ℕ)
    → Dict String RuntimeRecord
    → String
    → RuntimeHealthUpdate
    → ℕ
    → ℕ
    → Dict String RuntimeRecord × Option RuntimeHealth
unfolding is_valid_report progress_of runtime_health_for
report_runtime_health byte_len m name u now later =
    let m' = Dict.insert name (record_of u now (progress_of (Dict.lookup name m) u now)) m in
    if is_valid_report byte_len u then (m', runtime_health_for m' name later) else (m, none)
