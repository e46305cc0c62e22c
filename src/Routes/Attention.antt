-- ===== src/Routes/Attention.antt =====
-- The handlers of attentions (crates/server/src/routes/attention.rs). The store's answers stand in `Answers`.
pub mod Quiet
pub mod Requests
use loca.Base.{
  ℕ, String, Bool, true, false, not, ◌&&◌, ◌||◌, Option, none, some, ◌==◌, string_eq, if◌then◌else◌,
  is_some, map_option, or_else, List, Result, ok, err, Answer, failed, got,
}
use loca.Base.Dict.{Dict}
use loca.Protocol.Access.{Membership}
use loca.Protocol.Health.{RuntimeHealth, RuntimeHealthUpdate}
use loca.Hub.Attention.RuntimeHealth.{RuntimeRecord, report_runtime_health as report_of_runtime}
use loca.Protocol.Attention.{Attention, CreateAttention}
use loca.Hub.State.{Hub, SessionIdentity, is_deleted}
use loca.Hub.Door.{EnterDecision, principal_id_for_invite, member_for_credential}
use loca.Hub.Attention.Owner.{caretaker_owns_attention}
use loca.Hub.Attention.Lifecycle
use loca.Hub.Attention.Lifecycle.{AttentionError, DeliveryStore, attentions}
use loca.Routes.Handler.{Status, Handler, reply, refuse, panic, guard, call, ◌>>=◌, ◌>>◌}
use loca.Routes.Access.{
  Request, session_at, room_decision_of, member_token_of, enter, writable, actor, is_operator_req,
  operator,
}

-- What the outside answers while an attention is handled: random ids, the runtime's readiness, and the store.
pub record Answers : Type 0 where
  pub delivery : String
  pub id : String
  pub ready : String → Bool
  pub saved : Bool
  pub stored : Option Attention
  pub scope : Answer (Option (Option String))
  pub changed : Answer Bool
  pub deliveries : Option String → DeliveryStore

-- A runtime reports under its membership's name. The map of reports is a state of its own, and `later` is the
-- reading by which the answer is computed.
unfoldable report_runtime_health :
    Request
    → (String → ℕ)
    → Hub
    → Dict String RuntimeRecord
    → RuntimeHealthUpdate
    → ℕ
    → Dict String RuntimeRecord × Result RuntimeHealth Status
unfolding member_token_of member_for_credential report_of_runtime
report_runtime_health q byte_len h m body later =
    if not (is_some (member_token_of q))
    then (m, err Status.unauthorized)
    else elim (member_for_credential q.identity h (member_token_of q)) [
      | none ↦ (m, err Status.unauthorized)
      | some member ↦
          let (m', found) = report_of_runtime byte_len m member.name body q.now later in
          (
            m',
            elim found as (λ _. Result RuntimeHealth Status) [
              | none ↦ err Status.bad_request
              | some x ↦ ok x
            ],
          )
    ]

unfoldable list_attentions : Request → String → Handler (List Attention)
unfolding enter attentions
list_attentions q path = do room ← enter q path; call (λ h. (h, attentions h room))

abbrev pub attention_created : Result Attention AttentionError → Handler (Status × Attention)
attention_created (ok a) = reply (Status.created, a)
attention_created (err AttentionError.no_recipient) = refuse Status.conflict
attention_created (err AttentionError.not_found) = refuse Status.not_found
attention_created (err AttentionError.storage) = refuse Status.service_unavailable
attention_created (err AttentionError.forbidden) = panic
attention_created (err AttentionError.conflict) = panic

unfoldable pub create_attention :
    Request → Answers → String → CreateAttention → Handler (Status × Attention)
unfolding enter writable actor operator Lifecycle.create_attention
create_attention q o path body = do
  room ← enter q path
  writable room
  guard (not (q.trim body.subject == "")) Status.bad_request
  by ← actor q body.by
  allowed ← operator q room by
  guard allowed Status.forbidden
  made ← call (λ h.
      Lifecycle.create_attention q.trim o.ready h room
        (record body { subject = q.trim body.subject; by = by }) o.delivery o.id q.now o.saved
        o.stored)
  attention_created made

unfoldable pub attention_response : Result Attention AttentionError → Handler (Status × Attention)
attention_response (ok a) = reply (Status.success, a)
attention_response (err AttentionError.not_found) = refuse Status.not_found
attention_response (err AttentionError.forbidden) = refuse Status.forbidden
attention_response (err AttentionError.conflict) = refuse Status.conflict
attention_response (err AttentionError.storage) = refuse Status.service_unavailable
attention_response (err AttentionError.no_recipient) = panic

-- Whether the caller has the room itself, or only an attention of it as the caretaker that owns it.
unfoldable pub admitted : EnterDecision → Bool → Handler Bool
admitted EnterDecision.allowed owns = reply true
admitted EnterDecision.banned owns = refuse Status.forbidden
admitted EnterDecision.denied true = reply false
admitted EnterDecision.denied false = refuse Status.unauthorized

-- An owner may come from outside of the room.
unfoldable pub reach : Request → String → String → String → Handler Bool
unfolding room_decision_of caretaker_owns_attention admitted
reach q room id by = do
  decision ← call (λ h. room_decision_of q h room)
  owns ← call (λ h. (h, caretaker_owns_attention h room id by))
  admitted decision owns

unfoldable pub stands : String → Handler (Unit {0})
unfolding is_deleted
stands room = do sealed ← call (λ h. (h, is_deleted h room)); guard (not sealed) Status.not_found

unfoldable pub claim_attention :
    Request → Answers → String → String → String → Handler (Status × Attention)
unfolding stands actor reach writable attention_response Lifecycle.claim_attention
claim_attention q o room id claimed = do
  stands room
  by ← actor q claimed
  inside ← reach q room id by
  writable room
  made ← call (λ h. Lifecycle.claim_attention h room id by q.now o.changed)
  attention_response made

-- The principal of the caller's session.
unfoldable pub session_principal : Request → Handler (Option String)
unfolding session_at
session_principal q = do
  found ← call (λ h. session_at q h)
  reply (elim found as (λ _. Option String) [ none ↦ none | some x ↦ x.principal_id ])

-- From outside of the room nobody is an operator.
unfoldable pub is_inside_operator : Request → Hub → Bool → String → String → Hub × Bool
unfolding is_operator_req
is_inside_operator q h inside room by = if inside then is_operator_req q h room by else (h, false)

unfoldable pub resolve_attention :
    Request → Answers → String → String → String → Handler (Status × Attention)
unfolding stands actor reach writable is_inside_operator session_principal attention_response
    Lifecycle.resolve_attention
resolve_attention q o room id claimed = do
  stands room
  by ← actor q claimed
  inside ← reach q room id by
  writable room
  is_op ← call (λ h. is_inside_operator q h inside room by)
  principal ← session_principal q
  made ←
      call (λ h. Lifecycle.resolve_attention h room id by principal is_op q.now o.scope o.changed)
  attention_response made

abbrev pub care_acked : Answer Bool → Handler Status
care_acked (got true) = reply Status.no_content
care_acked (got false) = refuse Status.not_found
care_acked failed = refuse Status.service_unavailable

-- The acknowledging principal is the session's, or the davet's. The store's answer depends on it.
unfoldable pub acking_principal : Request → String → Handler (Option String)
unfolding session_principal principal_id_for_invite member_token_of
acking_principal q room = do
  session ← session_principal q
  davet ← call (λ h. (h, principal_id_for_invite q.identity h room (member_token_of q)))
  reply (or_else session davet)

unfoldable pub ack_care : Request → Answers → String → String → String → Handler Status
unfolding enter actor acking_principal Lifecycle.ack_care
ack_care q o path signal_id claimed = do
  room ← enter q path
  by ← actor q claimed
  principal ← acking_principal q room
  acked ← call (λ h. Lifecycle.ack_care (o.deliveries principal) h signal_id by q.now)
  care_acked acked
