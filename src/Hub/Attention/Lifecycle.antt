-- ===== src/Hub/Attention/Lifecycle.antt =====
-- Attentions from their creation to their end (crates/server/src/hub/attention/lifecycle.rs). `now` is the
-- clock's reading, and the store's answers are arguments.
pub mod Later
pub mod Progress
pub mod Moves
pub mod Once
use loca.Base.{
  ℕ, ◌-◌, String, Bool, true, false, not, ◌&&◌, ◌||◌, Option, none, some, List, [], ◌∷◌, ◌==◌,
  string_eq, option_eq, if◌then◌else◌, is_some, unwrap_or, or_else, drop, length, Answer, failed,
  got, Result, ok, err, sort_by, leb,
}
use loca.Base.Dict
use loca.Base.Dict.{Dict}
use loca.Protocol.Attention.{
  Attention, AttentionStatus, attention_status_eq, CareSignal, CareReason, ReminderState,
  CreateAttention, origin_room,
}
use loca.Protocol.Frames.{ServerFrame}
use loca.Hub.State.{Hub, Room, send, put_room}
use loca.Hub.Attention.Owner.{resolve_attention_owner}

pub data AttentionError : Type 0 where
  not_found no_recipient forbidden conflict storage : AttentionError

-- The envelope of an explicit attention, with the tail of the room's history.
unfoldable pub manual_signal :
    String → Room → CreateAttention → String → List String → String → String → ℕ → CareSignal
manual_signal room r req owner participants delivery id now = record {
  id = delivery;
  attention_id = id;
  room = room;
  source_room = "";
  reason = CareReason.manual;
  audience = req.audience;
  owner = some owner;
  owner_principal_id = none;
  group = none;
  target = some owner;
  participants = participants;
  subject = req.subject;
  created_by = req.by;
  context = drop (length r.history - r.settings.care_context_messages) r.history;
  attempt = 1;
  at = now;
  escalated = false;
  state = ReminderState.running;
}

-- The attention that a signal opens.
unfoldable pub new_attention : CareSignal → Attention
unfolding origin_room
new_attention s = record {
  id = s.attention_id;
  room = origin_room s;
  reason = s.reason;
  subject = s.subject;
  audience = s.audience;
  owner = s.owner;
  group = s.group;
  participants = s.participants;
  created_by = s.created_by;
  created_at = s.at;
  attempt = s.attempt;
  escalated = s.escalated;
  status = AttentionStatus.opened;
  delivered_at = none;
  claimed_by = none;
  claimed_at = none;
  resolved_at = none;
}

-- `delivery` and `id` are drawn at random. `saved` says whether the store took the signal, and `stored` is the
-- attention that it then has.
unfoldable pub create_attention :
    (String → String)
    → (String → Bool)
    → Hub
    → String
    → CreateAttention
    → String
    → String
    → ℕ
    → Bool
    → Option Attention
    → Hub × Result Attention AttentionError
unfolding resolve_attention_owner manual_signal new_attention put_room send
create_attention trim ready h room req delivery id now saved stored =
    elim (Dict.lookup room h.rooms) [
      | none ↦ (h, err AttentionError.not_found)
      | some r ↦ elim (resolve_attention_owner trim ready r req.audience) [
        | none ↦ (h, err AttentionError.no_recipient)
        | some found ↦
            let s = manual_signal room r req found.0 found.1 delivery id now in
            let a = unwrap_or (new_attention s) stored in
            let h' = record h { care_deliveries = Dict.insert delivery id h.care_deliveries } in
            if saved
            then (
              put_room h' room (
                  send (ServerFrame.care s) (
                    send (ServerFrame.attention a)
                      (record r { attentions = Dict.insert a.id a r.attentions }))),
              ok a,
            )
            else (h, err AttentionError.storage)
      ]
    ]

-- The attention's new state, and its frame.
unfoldable pub replace_attention : String → Attention → Room → Room
unfolding send
replace_attention id a r =
    send (ServerFrame.attention a) (record r { attentions = Dict.insert id a r.attentions })

unfoldable pub put_claim : String → ℕ → Attention → Attention
put_claim actor now a = record a {
  status = AttentionStatus.claimed;
  claimed_by = some actor;
  claimed_at = some now;
}

-- `stored` says whether the store made the claim.
unfoldable pub claim_attention :
    Hub → String → String → String → ℕ → Answer Bool → Hub × Result Attention AttentionError
unfolding put_claim put_room replace_attention
claim_attention h room id actor now stored = elim (Dict.lookup room h.rooms) [
  | none ↦ (h, err AttentionError.not_found)
  | some r ↦ elim (Dict.lookup id r.attentions) [
    | none ↦ (h, err AttentionError.not_found)
    | some a ↦
        if not (a.owner == some actor)
        then (h, err AttentionError.forbidden)
        else if not (a.status == AttentionStatus.opened)
        then (h, err AttentionError.conflict)
        else elim stored [
          | failed ↦ (h, err AttentionError.storage)
          | got made ↦
              if made
              then (
                put_room h room (replace_attention id (put_claim actor now a) r),
                ok (put_claim actor now a),
              )
              else (h, err AttentionError.conflict)
        ]
  ]
]

-- Whom the store's scope of an attention admits: its principal, or the owner or claimer by name, but none by
-- name where a generated attention has lost its scope.
unfoldable pub may_resolve : Attention → String → Option String → Option (Option String) → Bool
may_resolve a actor principal none =
    not (is_some a.group) && (a.owner == some actor || a.claimed_by == some actor)
may_resolve a actor principal (some none) = a.owner == some actor || a.claimed_by == some actor
may_resolve a actor principal (some (some owner)) = principal == some owner

unfoldable pub put_resolution : ℕ → Attention → Attention
put_resolution now a = record a { status = AttentionStatus.resolved; resolved_at = some now }

unfoldable pub close_attention :
    Hub
    → String
    → String
    → Room
    → Attention
    → ℕ
    → Answer Bool
    → Hub × Result Attention AttentionError
unfolding put_resolution put_room replace_attention
close_attention h room id r a now stored =
    if a.status == AttentionStatus.resolved then (h, err AttentionError.conflict) else elim stored [
      | failed ↦ (h, err AttentionError.storage)
      | got made ↦
          if made
          then (
            put_room h room (replace_attention id (put_resolution now a) r),
            ok (put_resolution now a),
          )
          else (h, err AttentionError.conflict)
    ]

-- `scope` is the store's answer on the attention's principal, which is asked of those who are no operators.
unfoldable pub resolve_attention :
    Hub
    → String
    → String
    → String
    → Option String
    → Bool
    → ℕ
    → Answer (Option (Option String))
    → Answer Bool
    → Hub × Result Attention AttentionError
unfolding may_resolve close_attention
resolve_attention h room id actor principal is_operator now scope stored =
    elim (Dict.lookup room h.rooms) [
      | none ↦ (h, err AttentionError.not_found)
      | some r ↦ elim (Dict.lookup id r.attentions) [
        | none ↦ (h, err AttentionError.not_found)
        | some a ↦ if is_operator then close_attention h room id r a now stored else elim scope [
          | failed ↦ (h, err AttentionError.storage)
          | got found ↦
              if may_resolve a actor principal found
              then close_attention h room id r a now stored
              else (h, err AttentionError.forbidden)
        ]
      ]
    ]

-- `Hub::attentions`, oldest first
unfoldable pub attentions : Hub → String → List Attention
attentions h room = elim (Dict.lookup room h.rooms) [
  | none ↦ []
  | some r ↦ sort_by (λ (a b : Attention). leb a.created_at b.created_at) (Dict.values r.attentions)
]

-- The first room that has the attention.
unfoldable pub memory_attention : String → Dict String Room → Option Attention
memory_attention id [] = none
memory_attention id ((name, r) ∷ m) = or_else (Dict.lookup id r.attentions) (memory_attention id m)

-- `get_or_insert`
unfoldable pub deliver_attention : ℕ → Attention → Attention
deliver_attention now a = record a { delivered_at = some (unwrap_or now a.delivered_at) }

unfoldable pub mark_delivered : String → ℕ → Dict String Room → Dict String Room
unfolding deliver_attention replace_attention
mark_delivered id now [] = []
mark_delivered id now ((name, r) ∷ m) =
    let rest = mark_delivered id now m in
    elim (Dict.lookup id r.attentions) [
      | none ↦ (name, r) ∷ rest
      | some a ↦ (name, replace_attention id (deliver_attention now a) r) ∷ m
    ]

-- What the store says of a delivery: whether it persists, the attention behind the delivery, the attention's
-- row, and whether it recorded the acknowledgement.
pub record DeliveryStore : Type 0 where
  pub is_persistent : Bool
  pub attention_id_for_delivery : String → Option String
  pub attention : String → Option Attention
  pub ack_care_scoped : Answer Bool

unfoldable pub acknowledged : Hub → String → String → ℕ → Hub
unfolding mark_delivered
acknowledged h signal_id id now = record h {
  care_deliveries = Dict.remove signal_id h.care_deliveries;
  rooms = mark_delivered id now h.rooms;
}

-- A delivery that is only in memory counts as acknowledged once.
unfoldable pub is_hot_ack : DeliveryStore → Option String → Option Attention → Bool
is_hot_ack s hot memory =
    not s.is_persistent
    && is_some hot
    && (elim memory [ none ↦ false | some a ↦ not (is_some a.delivered_at) ])

unfoldable pub ack_care : DeliveryStore → Hub → String → String → ℕ → Hub × Answer Bool
unfolding memory_attention is_hot_ack acknowledged
ack_care s h signal_id owner now =
    let hot = Dict.lookup signal_id h.care_deliveries in
    elim (or_else hot (s.attention_id_for_delivery signal_id)) [
      | none ↦ (h, got false)
      | some id ↦
          let memory = memory_attention id h.rooms in
          let known = or_else memory (s.attention id) in
          if not
            ((elim known as (λ _. Option String) [ none ↦ none | some a ↦ a.owner ]) == some owner)
          then (h, got false)
          else elim s.ack_care_scoped [
            | failed ↦ (h, failed)
            | got recorded ↦
                if recorded || is_hot_ack s hot memory
                then (acknowledged h signal_id id now, got true)
                else (h, got false)
          ]
    ]
