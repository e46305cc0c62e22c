-- ===== src/Hub/Post/Compose.antt =====
-- Composing the message, the wake-ups that it causes and the turn after it
-- (crates/server/src/hub.rs).
use loca.Base.{
  ℕ, ◌+◌, ◌%◌, String, false, ◌||◌, Option, none, some, List, [], ◌∷◌, map, ◌==◌, string_eq, nat_eq,
  if◌then◌else◌, get_elem?, length, Answer, failed, got, format, show, is_all, Unicode, find,
  option_eq,
}
use mathlib.Core.List.{reverse}
use loca.Base.Dict
use loca.Protocol.Chat.{Attachment, Message, PostMessage, ChatMode, is_say}
use loca.Protocol.Work.{WaitState}
use loca.Protocol.Attention.{CareSignal, CareReason, AttentionAudience, ReminderState}
use loca.Hub.State.{Room, Hub}
use loca.Hub.Clock.{next_generation}
use loca.Hub.Attention.Addressing.{addressed_caretakers}
use loca.Hub.Post.Store.{PostStore, non_empty}

-- An author other than the sender.
other_author : String → Option String → Option String
other_author sender none = none
other_author sender (some owner) = if owner == sender || owner == "" then none else some owner

-- The author of the message that is answered: from the tail in memory, newest first, and from the
-- store where the tail has it no more.
unfoldable pub reply_author : PostStore → String → Room → PostMessage → Answer (Option String)
unfolding other_author
reply_author store room r body = elim body.reply_to [
  | none ↦ got none
  | some rid ↦ elim (find (λ m. m.id == rid) (reverse r.history)) [
    | some m ↦ got (other_author body.sender (some m.sender))
    | none ↦ elim (store.message_owner room rid) [
      | failed ↦ failed
      | got owner ↦ got (other_author body.sender owner)
    ]
  ]
]

unfoldable pub compose : String → PostMessage → List Attachment → Option String → ℕ → ℕ → Message
unfolding non_empty
compose room body attachments author id ts = record {
  id = id;
  room = room;
  sender = body.sender;
  sender_type = body.sender_type;
  target = non_empty body.target;
  text = body.text;
  kind = body.kind;
  reply_to = body.reply_to;
  reply_to_sender = author;
  ts = ts;
  attachments = attachments;
}

-- The envelope that calls a caretaker from a room other than the home room.
unfoldable pub summon : String → String → ℕ → Message → String → CareSignal
summon room home now m owner = record {
  id = format ("summon:" ∷ room ∷ ":" ∷ show m.id ∷ ":" ∷ owner ∷ []);
  attention_id = format ("attention:" ∷ room ∷ ":summon:" ∷ show m.id ∷ ":" ∷ owner ∷ []);
  room = home;
  source_room = room;
  reason = CareReason.direct_summon;
  audience = AttentionAudience.person owner;
  owner = some owner;
  owner_principal_id = none;
  group = none;
  target = some owner;
  participants = m.sender ∷ owner ∷ [];
  subject = format (m.sender ∷ " directly summoned a caretaker" ∷ []);
  created_by = m.sender;
  context = m ∷ [];
  attempt = 1;
  at = now;
  escalated = false;
  state = ReminderState.running;
}

unfoldable pub summons : Unicode → Hub → String → ℕ → Message → List CareSignal
unfolding summon
summons u h room now m =
    if room == h.home_room
    then []
    else map (summon room h.home_room now m) (addressed_caretakers u h.caretakers m)

-- The waiter whom this message answers: it is addressed by name, and it waits for the sender.
unfoldable pub answered_wait : Room → Message → Option WaitState
answered_wait r m = elim m.target [
  | none ↦ none
  | some target ↦
      if is_all target || target == m.sender then none else elim (Dict.lookup target r.waits) [
        | none ↦ none
        | some w ↦ if w.waiting_for == m.sender then some w else none
      ]
]

wake_signal : String → String → String → ℕ → ℕ → Message → CareSignal
wake_signal delivery room target now since m = record {
  id = delivery;
  attention_id = format ("attention:" ∷ room ∷ ":wait-reply:" ∷ target ∷ ":" ∷ show since ∷ []);
  room = room;
  source_room = "";
  reason = CareReason.wait_replied;
  audience = AttentionAudience.person target;
  owner = some target;
  owner_principal_id = none;
  group = none;
  target = some target;
  participants = m.sender ∷ target ∷ [];
  subject = format (m.sender ∷ " replied to " ∷ target ∷ []);
  created_by = m.sender;
  context = m ∷ [];
  attempt = 1;
  at = now;
  escalated = false;
  state = ReminderState.running;
}

-- The renewed wait and the wake-up of its waiter, with the hub whose generation has advanced.
-- A message that already summons a caretaker wakes nobody else.
unfoldable pub wait_wake :
    String
    → String
    → ℕ
    → Hub
    → Room
    → Message
    → List CareSignal
    → Hub × Option (WaitState × CareSignal)
unfolding answered_wait wake_signal
wait_wake delivery room now h r m (s ∷ rest) = (h, none)
wait_wake delivery room now h r m [] =
    if is_say m.kind
    then elim (answered_wait r m) [
      | none ↦ (h, none)
      | some w ↦
          let since = next_generation h.condition_generation now w.since in
          let target : String = elim m.target [ none ↦ "" | some t ↦ t ] in
          (
            record h { condition_generation = since },
            some (
              record w {
                room = room;
                waiter = target;
                since = since;
                last_signal_at = none;
                signal_count = 0;
              },
              wake_signal delivery room target now since m,
            ),
          )
    ]
    else (h, none)

-- The mode after an accepted message: the baton moves on if its holder spoke.
unfoldable pub advance_turn : ChatMode → String → Option ChatMode
advance_turn (ChatMode.round_robin order turn) sender = elim (get_elem? order turn) [
  | none ↦ none
  | some cur ↦
      if cur == sender then some (ChatMode.round_robin order ((turn + 1) % length order)) else none
]
advance_turn _ sender = none
