-- ===== src/Examples/Running.antt =====
-- Running the example's room, and a runtime of it.
use loca.Base.{
  ◌≡◌, ◌≢◌, ◌↔◌, ◌<◌, refl, ℕ, String, Bool, true, false, none, some, [], ◌∷◌, map_option, contains,
  string_eq, arith, List, got, ok, find,
}
use loca.Base.Dict
use loca.Base.Dict.{Dict}
use loca.Protocol.Health.{RuntimeHealth, RuntimeHealthUpdate}
use loca.Protocol.Settings.{SetSettings}
use loca.Hub.State.{Hub, BuildingRole, room_of}
use loca.Routes.Access.Rank.{Recorded, HasRole}
use loca.Hub.Settings
use loca.Hub.Settings.{apply_settings}
use loca.Hub.Attention.RuntimeHealth.{
  RuntimeRecord, record_of, is_same_report, report_runtime_health, runtime_health_for,
}
use loca.Hub.Attention.RuntimeHealth.Stuck.{Beats, report_runtime_health-stuck}
use loca.Routes.Handler.{Status, next, refused}
use loca.Routes.Access.{Request}
use loca.Routes.Access.Settled.{settle}
use loca.Hub.Admission.{join_request_rate_ok}
use loca.Hub.Admission.Sources.{
  counted, accepted, own, after, Latest, join_request_rate_ok-accepted,
}
use loca.Protocol.Chat.{MessageReactionEvent}
use loca.Hub.Reactions.{set_reaction}
use loca.Hub.Reactions.Allowed.{Reacted, set_reaction-Reacted}
use loca.Routes.Rooms
use loca.Routes.Rooms.Running.{
  SettingsMade, set_settings-SettingsMade, RoomRequest, serve, Ranked, serve_unranked,
}
use loca.Examples.Data.{settings, server, asks}

abbrev beat : RuntimeHealthUpdate
beat = record {
  wake = "RUNNING";
  ack = "PENDING";
  delivery_id = some "d1";
  attention_id = none;
  stored = true;
  accepted = false;
  first_response = false;
  final_response = false;
  turn_completed = false;
}

abbrev byte_len : String → ℕ
byte_len s = 2

abbrev reported : Dict String RuntimeRecord
reported = ("bot", record_of beat 100 100) ∷ []

abbrev later_reported : Dict String RuntimeRecord
later_reported = (report_runtime_health byte_len reported "bot" beat 9000 9000).0

on_record : Dict.lookup "bot" reported ≡ some (record_of beat 100 100)
unfolding Dict.lookup
on_record = refl

repeats : is_same_report (record_of beat 100 100) beat ≡ true
unfolding is_same_report
repeats = refl

beats : Beats byte_len "bot" beat reported later_reported
beats = Beats.again 9000 9000 Beats.start

report_runtime_health-stuck_example :
    map_option (λ (x : RuntimeHealth). x.ready) (runtime_health_for later_reported "bot" 10101)
    ≡ some false
report_runtime_health-stuck_example =
    report_runtime_health-stuck byte_len "bot" beat reported later_reported (record_of beat 100 100)
      10101 on_record repeats refl beats (omega arith)

abbrev change : SetSettings
change = record {
  rate_limit = some 5;
  rate_window_secs = none;
  live = none;
  archived = none;
  live_timeout_secs = none;
  operators = some ("ada" ∷ "cy" ∷ []);
  turn_max_messages = none;
  turn_idle_ms = none;
  turn_max_wait_ms = none;
  care_wait_secs = none;
  care_cooldown_secs = none;
  care_max_attempts = none;
  care_context_messages = none;
  care_recipient = none;
  care_goal_secs = some 600;
  care_task_secs = none;
  care_silence_secs = none;
}

abbrev anyone : String → Bool
anyone name = true

abbrev changed : Hub
changed = (Settings.set_settings server "atelier" change asks.now true).0

changes :
    Rooms.set_settings asks anyone "atelier" change true server
    ≡ next (Status.success, apply_settings change settings) changed
unfolding Rooms.set_settings Dict.lookup contains room_of
changes = refl

set_settings-SettingsMade_example :
    SettingsMade asks server "atelier" change true
      (Status.success, apply_settings change settings)
      changed
set_settings-SettingsMade_example =
    set_settings-SettingsMade asks anyone "atelier" change true server changed
      (Status.success, apply_settings change settings) changes

abbrev stranger : Request
stranger = record asks { admin = none }

guarded : server.admin_token ≢ ""
guarded e = cc

roleless : (role : BuildingRole) → ¬ HasRole stranger server role
roleless role (HasRole.recorded p (Recorded.by_session x id live e found)) = cc (live.shown)
roleless role (HasRole.recorded p (Recorded.by_credential t none_live e known found)) = cc
roleless role (HasRole.session x live e) = cc (live.shown)
roleless role (HasRole.unguarded none_live e open_house) = guarded open_house
roleless role (HasRole.admin_key t none_live e known found fits) = cc
roleless role (HasRole.second_key t name none_live e known found filed) = cc

unranked : ¬ Ranked stranger server (RoomRequest.seal "atelier" true)
unfolding Ranked
unranked = roleless BuildingRole.master

serve_unranked_example :
    serve stranger (RoomRequest.seal "atelier" true) server
    ≡ refused Status.unauthorized (settle stranger server)
serve_unranked_example = serve_unranked stranger (RoomRequest.seal "atelier" true) server unranked

-- The requests of two sources, latest first
abbrev requests : List (String × ℕ)
requests = ("10.0.0.2", 30) ∷ ("10.0.0.1", 7) ∷ ("10.0.0.1", 5) ∷ []

in_order : Latest 40 requests
unfolding Latest
in_order = (omega arith, (omega arith, (omega arith, tt)))

join_request_rate_ok-accepted_example :
    ((join_request_rate_ok (after requests) "10.0.0.1" 40).1 ≡ true)
    ↔ (counted 40 (accepted (own "10.0.0.1" requests)) < 30)
join_request_rate_ok-accepted_example =
    join_request_rate_ok-accepted requests "10.0.0.1" 40 in_order

abbrev thanks : MessageReactionEvent
thanks = record {
  message_id = 3;
  emoji = "♥";
  actors = "ada" ∷ [];
  owner = "bot";
  reactor = "ada";
  active = true;
  ts = 50;
}

abbrev thanked : Hub
thanked = (set_reaction server "atelier" 3 "ada" "♥" true 50 (got (some "bot")) (got [])).0

reacts :
    set_reaction server "atelier" 3 "ada" "♥" true 50 (got (some "bot")) (got [])
    ≡ (thanked, ok thanks)
unfolding set_reaction Dict.lookup contains find
reacts = refl

set_reaction-Reacted_example :
    Reacted server "atelier" 3 "ada" "♥" true 50 (got (some "bot")) (got []) thanks thanked
set_reaction-Reacted_example =
    set_reaction-Reacted server thanked "atelier" 3 "ada" "♥" true 50 (got (some "bot")) (got [])
      thanks reacts
