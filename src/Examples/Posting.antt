-- ===== src/Examples/Posting.antt =====
-- Posts, the rate limit and the turn on the example.
use loca.Base.{
  ◌+◌, ◌%◌, ◌≡◌, ◌<◌, List, false, true, refl, none, some, [], ◌∷◌, contains, string_eq, nat_eq,
  pair_eq, arith, got, ok, u64_max,
}
use loca.Base.Dict
use loca.Base.Dict.{AllEntries}
use loca.Protocol.Chat.{ChatMode}
use loca.Protocol.Settings.{SetSettings}
use loca.Hub.State.{room_of, put_room}
use loca.Hub.RateLimit.{rate_check}
use loca.Hub.RateLimit.Knocks.{Knock}
use loca.Hub.RateLimit.Retry.{rate_check_retry}
use loca.Hub.Settings.{apply_settings}
use loca.Hub.Settings.Bounds.{SettingsOk, default_settings-SettingsOk, apply_settings-SettingsOk}
use loca.Hub.Settings.Turns.{HubTurns, post-HubTurns, rotate, rotate_lem}
use loca.Hub.Post.Store.{non_empty, stored_reply, resolve_ids, resolve_attachments}
use loca.Hub.Post.Deliver.{post}
use loca.Hub.Post.Permission.{Permitted, Durable, post-Permitted, post-Durable}
use loca.Hub.Post.Refusal.{Untouched, post_refused}
use loca.Hub.Post.History.{RecordedOrNot, post-Recorded}
use loca.Hub.Post.Repeat.{HubOps, post-HubOps, post_twice}
use loca.Examples.Run.{greeting, greeted, still_here}
use loca.Examples.Data.{server, hello, hello_again}
use loca.Protocol.Settings.{default_settings}

post-Permitted_example : Permitted hello server (post hello server).1
post-Permitted_example = post-Permitted hello server

post-Durable_example : Durable hello server (post hello server).1
post-Durable_example = post-Durable hello server

-- A human out of turn is refused.
post_refused_example :
    Untouched
      (record hello { body = record hello.body { sender = "ada" } })
      server
      (post (record hello { body = record hello.body { sender = "ada" } }) server)
post_refused_example =
    post_refused (record hello { body = record hello.body { sender = "ada" } }) server

clock_low : (room_of server "atelier").last_msg_ms < u64_max
unfolding room_of Dict.lookup
clock_low = omega arith

post-Recorded_example : RecordedOrNot hello server (post hello server)
post-Recorded_example = post-Recorded hello server (omega arith) clock_low

server-HubOps : HubOps server
unfolding contains Dict.contains_key
server-HubOps = (record { once = tt; same = λ k. refl; bounded = omega arith }, tt)

post-HubOps_example : HubOps (post hello server).0
post-HubOps_example = post-HubOps hello server server-HubOps

no_stored : stored_reply hello.store "atelier" "b" (some "op1") ≡ got none
unfolding stored_reply
no_stored = refl

no_attachments : resolve_attachments hello_again.store "atelier" [] ≡ ok []
unfolding resolve_attachments resolve_ids
no_attachments = refl

named_operation : non_empty hello.body.op_id ≡ some "op1"
unfolding non_empty
named_operation = refl

post_twice_example : post hello_again (post hello server).0 ≡ (
  put_room (post hello server).0 "atelier" (room_of (post hello server).0 "atelier"),
  ok greeting,
)
post_twice_example =
    post_twice hello server hello_again "op1" greeting [] refl refl named_operation named_operation
      no_stored no_stored still_here no_attachments server-HubOps greeted

server-HubTurns : HubTurns server
server-HubTurns = ((λ h. omega arith), tt)

post-HubTurns_example : HubTurns (post hello server).0
post-HubTurns_example = post-HubTurns hello server server-HubTurns

rotate_lem_example :
    rotate 3 (ChatMode.round_robin ("bot" ∷ "ada" ∷ []) 0)
    ≡ ChatMode.round_robin ("bot" ∷ "ada" ∷ []) ((0 + 3) % 2)
rotate_lem_example = rotate_lem 3 ("bot" ∷ "ada" ∷ []) 0 (omega arith)

abbrev knocks : List Knock
knocks =
    record { sender = "cy"; is_admin = false; now = 1 }
    ∷ record { sender = "bot"; is_admin = true; now = 2 }
    ∷ record { sender = "cy"; is_admin = false; now = 3 }
    ∷ record { sender = "cy"; is_admin = false; now = 4 }
    ∷ []

refused : (rate_check 2 30000 40000 (20000 ∷ 30000 ∷ [])).1 ≡ some 10
unfolding rate_check
refused = refl

rate_check_retry_example :
    (rate_check 2 30000 50000 (rate_check 2 30000 40000 (20000 ∷ 30000 ∷ [])).0).1 ≡ none
rate_check_retry_example =
    rate_check_retry 2 30000 40000 50000 10 (20000 ∷ 30000 ∷ []) (omega arith) (omega arith)
      (omega arith) refused (omega arith)

abbrev wild : SetSettings
wild = record {
  rate_limit = some 0;
  rate_window_secs = some 0;
  live = none;
  archived = none;
  live_timeout_secs = none;
  operators = none;
  turn_max_messages = some 99;
  turn_idle_ms = some 30000;
  turn_max_wait_ms = some 200;
  care_wait_secs = none;
  care_cooldown_secs = none;
  care_max_attempts = some 0;
  care_context_messages = some 50;
  care_recipient = none;
  care_goal_secs = none;
  care_task_secs = none;
  care_silence_secs = none;
}

apply_settings-SettingsOk_example : SettingsOk (apply_settings wild default_settings)
apply_settings-SettingsOk_example =
    apply_settings-SettingsOk wild default_settings default_settings-SettingsOk
