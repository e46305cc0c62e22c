-- ===== src/Hub/Attention/RuntimeHealth/Stuck.antt =====
-- Runtimes that report the same again and again (crates/server/src/hub/attention/runtime_health.rs).
use loca.Base.{
  ◌≡◌, refl, ap, ◌∙◌, inl, inr, ℕ, ◌+◌, ◌<◌, String, Bool, true, false, some, ◌==◌, string_eq,
  option_eq, option_beq_iff, arith, map_option, Bool-cases,
}
use loca.Base.Dict
use loca.Base.Dict.{Dict}
use loca.Base.Dict.Laws.{lookup-insert}
use loca.Protocol.Health.{RuntimeHealth, RuntimeHealthUpdate}
use loca.Hub.Attention.RuntimeHealth.{
  RuntimeRecord, runtime_record_ready, runtime_health_for, is_same_report, same_flag,
  is_valid_report, progress_of, record_of, report_runtime_health, runtime_wake_grace_ms,
}

-- Runs in which a runtime reports nothing but `u`, as often as it likes, while others report anything.
pub data Beats (byte_len : String → ℕ) (name : String) (u : RuntimeHealthUpdate)
    (m : Dict String RuntimeRecord) : Dict String RuntimeRecord → Type 0 where
  start : Beats byte_len name u m m
  again :
      {m₁ : Dict String RuntimeRecord} (now later : ℕ)
      → Beats byte_len name u m m₁
      → Beats byte_len name u m (report_runtime_health byte_len m₁ name u now later).0
  another :
      {m₁ : Dict String RuntimeRecord} (other : String) (v : RuntimeHealthUpdate) (now later : ℕ)
      → (other == name) ≡ false
      → Beats byte_len name u m m₁
      → Beats byte_len name u m (report_runtime_health byte_len m₁ other v now later).0

-- What stays on record of the runtime.
record Kept (m : Dict String RuntimeRecord) (name : String) (u : RuntimeHealthUpdate) (progress : ℕ)
    : Type 0 where
  r : RuntimeRecord
  filed : Dict.lookup name m ≡ some r
  same : is_same_report r u ≡ true
  progressed : r.progress_at ≡ progress

same_flag_refl : (b : Bool) → same_flag b b ≡ true
same_flag_refl true = refl
same_flag_refl false = refl

record_of_same :
    (u : RuntimeHealthUpdate) (seen progress : ℕ)
    → is_same_report (record_of u seen progress) u ≡ true
unfolding is_same_report
record_of_same u seen progress = ground (
  arith,
  string_eq.equals_iff u.wake u.wake,
  string_eq.equals_iff u.ack u.ack,
  option_beq_iff u.delivery_id u.delivery_id,
  option_beq_iff u.attention_id u.attention_id,
  same_flag_refl u.stored,
  same_flag_refl u.accepted,
  same_flag_refl u.first_response,
  same_flag_refl u.final_response,
  same_flag_refl u.turn_completed,
)

same_wake :
    (r : RuntimeRecord) (u : RuntimeHealthUpdate) → is_same_report r u ≡ true → r.wake ≡ u.wake
unfolding is_same_report
same_wake r u e = ground (arith, string_eq.equals_iff r.wake u.wake)

progress_of_same :
    (r : RuntimeRecord) (u : RuntimeHealthUpdate) (now : ℕ)
    → is_same_report r u ≡ true
    → progress_of (some r) u now ≡ r.progress_at
unfolding progress_of
progress_of_same r u now e = rw e refl

module _ (byte_len : String → ℕ) (name : String) (u : RuntimeHealthUpdate) (progress : ℕ) where
  again-Kept :
      (m : Dict String RuntimeRecord) (now later : ℕ)
      → Kept m name u progress
      → Kept (report_runtime_health byte_len m name u now later).0 name u progress
  unfolding report_runtime_health
  again-Kept m now later k = elim (Bool-cases (is_valid_report byte_len u)) [
    | inr bad ↦ rw bad k
    | inl good ↦
        let at = progress_of (Dict.lookup name m) u now in
        let kept : at ≡ progress =
          ap (λ x. progress_of x u now) k.filed
          ∙ progress_of_same k.r u now k.same
          ∙ k.progressed in
        rw good (record {
          r = record_of u now at;
          filed = ground (
            arith,
            lookup-insert name name (record_of u now at) m,
            string_eq.equals_iff name name,
          );
          same = record_of_same u now at;
          progressed = kept;
        })
  ]

  another-Kept :
      (m : Dict String RuntimeRecord) (other : String) (v : RuntimeHealthUpdate) (now later : ℕ)
      → (other == name) ≡ false
      → Kept m name u progress
      → Kept (report_runtime_health byte_len m other v now later).0 name u progress
  unfolding report_runtime_health
  another-Kept m other v now later apart k = elim (Bool-cases (is_valid_report byte_len v)) [
    | inr bad ↦ rw bad k
    | inl good ↦
        let put = record_of v now (progress_of (Dict.lookup other m) v now) in
        rw good (record {
          r = k.r;
          filed = rw (lookup-insert other name put m, apart) (k.filed);
          same = k.same;
          progressed = k.progressed;
        })
  ]

  Beats-Kept :
      {m m' : Dict String RuntimeRecord}
      → Beats byte_len name u m m'
      → Kept m name u progress
      → Kept m' name u progress
  Beats-Kept Beats.start k = k
  Beats-Kept (Beats.again {m₁} now later run) k = again-Kept m₁ now later (Beats-Kept run k)
  Beats-Kept (Beats.another {m₁} other v now later apart run) k =
      another-Kept m₁ other v now later apart (Beats-Kept run k)

late_not_ready :
    (r : RuntimeRecord) (now : ℕ)
    → r.wake ≡ "RUNNING"
    → r.progress_at + runtime_wake_grace_ms < now
    → runtime_record_ready r now ≡ false
unfolding runtime_record_ready
late_not_ready r now running late = rw running (ground arith)

-- A runtime that is on record as running, and that from then on reports only the same, as often as it likes and
-- whatever others report, is not ready once ten seconds have passed since it last changed what it reports:
-- heartbeats alone do not keep it ready.
pub report_runtime_health-stuck :
    (byte_len : String → ℕ) (name : String) (u : RuntimeHealthUpdate)
    (m m' : Dict String RuntimeRecord) (r : RuntimeRecord) (now : ℕ)
    → Dict.lookup name m ≡ some r
    → is_same_report r u ≡ true
    → u.wake ≡ "RUNNING"
    → Beats byte_len name u m m'
    → r.progress_at + runtime_wake_grace_ms < now
    → map_option (λ (x : RuntimeHealth). x.ready) (runtime_health_for m' name now) ≡ some false
unfolding runtime_health_for
report_runtime_health-stuck byte_len name u m m' r now filed same running run late =
    let k =
      Beats-Kept byte_len name u r.progress_at run
        (record { r = r; filed = filed; same = same; progressed = refl }) in
    let unready =
      late_not_ready k.r now (same_wake k.r u k.same ∙ running) (rw (k.progressed) late) in
    rw (k.filed, unready) refl
