-- ===== src/Examples/Run.antt =====
-- The run of the first post: its message, and that the room is not sealed after it.
use loca.Base.{
  ◌≡◌, refl, false, none, [], ok, contains, any, find, insert_sorted, sort_by, format, is_all, show,
  starts_with, strip_prefix, sat_add, wrap_suc,
}
use loca.Base.Dict
use loca.Protocol.Chat.{Message, MessageKind, SenderType}
use loca.Hub.Attention.Addressing.{addressed_caretakers, dedup}
use loca.Hub.Attention.Resolution.{
  condition_ids, is_under, matching, resolve_condition_attention, resolve_wait_attentions,
  resolved_at, wait_ids,
}
use loca.Hub.Clock.{next_generation}
use loca.Hub.Post.Commit.{
  attention_of, deliver_to, file_attention, push_history, record_message, record_operation,
  record_summons, record_time, record_turn, record_wake, send_home, trim_operations,
}
use loca.Hub.Post.Compose.{
  advance_turn, answered_wait, compose, summon, summons, wait_wake, reply_author,
}
use loca.Hub.Post.Deliver.{
  generation_of, message_of, calls_of, commit, operation_of, row_of, spent, wake_of, deliver,
  post_locked, remembered, post, write_failure, write_of,
}
use loca.Hub.Post.Gate.{mode_gate, gate, rate_gate, records_rate, times_of}
use loca.Hub.RateLimit.{expire, rate_check, retry_ms}
use loca.Hub.State.{new_room, put_room, room_exists, room_of, is_deleted, send}
use loca.Hub.Post.Store.{non_empty, stored_reply, resolve_ids, resolve_attachments}
use loca.Examples.Data.{server, hello}

abbrev pub greeting : Message
greeting = record {
  id = 1;
  room = "atelier";
  sender = "bot";
  sender_type = SenderType.agent;
  target = none;
  text = "hello";
  kind = MessageKind.say;
  reply_to = none;
  reply_to_sender = none;
  ts = 1000;
  attachments = [];
}

pub greeted : (post hello server).1 ≡ ok greeting
unfolding contains Dict.lookup Dict.contains_key Dict.insert Dict.remove any find insert_sorted
    sort_by format is_all show starts_with strip_prefix sat_add wrap_suc addressed_caretakers dedup
    condition_ids is_under matching resolve_condition_attention resolve_wait_attentions resolved_at
    wait_ids next_generation attention_of deliver_to file_attention push_history record_message
    record_operation record_summons record_time record_turn record_wake send_home trim_operations
    advance_turn answered_wait compose summon summons wait_wake reply_author generation_of
    message_of calls_of commit operation_of row_of spent wake_of deliver post_locked remembered post
    write_failure write_of mode_gate gate rate_gate records_rate times_of expire rate_check retry_ms
    new_room put_room room_exists room_of is_deleted send non_empty stored_reply resolve_ids
    resolve_attachments
greeted = refl

pub still_here : is_deleted (post hello server).0 "atelier" ≡ false
unfolding contains Dict.lookup Dict.contains_key Dict.insert Dict.remove any find insert_sorted
    sort_by format is_all show starts_with strip_prefix sat_add wrap_suc addressed_caretakers dedup
    condition_ids is_under matching resolve_condition_attention resolve_wait_attentions resolved_at
    wait_ids next_generation attention_of deliver_to file_attention push_history record_message
    record_operation record_summons record_time record_turn record_wake send_home trim_operations
    advance_turn answered_wait compose summon summons wait_wake reply_author generation_of
    message_of calls_of commit operation_of row_of spent wake_of deliver post_locked remembered post
    write_failure write_of mode_gate gate rate_gate records_rate times_of expire rate_check retry_ms
    new_room put_room room_exists room_of is_deleted send non_empty stored_reply resolve_ids
    resolve_attachments
still_here = refl
