-- ===== src/Routes/Attention/Requests.antt =====
-- Requests about attentions, as one type (crates/server/src/routes/attention.rs).
use loca.Base.{
  ◌≡◌, ◌≢◌, refl, String, Bool, true, false, not, ◌==◌, string_eq, Answer, failed, got, Result, ok,
  err,
}
use loca.Protocol.Attention.{Attention, CreateAttention}
use loca.Hub.State.{Hub}
use loca.Hub.Attention.Lifecycle
use loca.Hub.Attention.Lifecycle.{AttentionError}
use loca.Routes.Handler.{Status, Handler, Run, next, refused, panicked, reply, ◌>>=◌}
use loca.Routes.Access.{Request}
use loca.Routes.Attention
use loca.Routes.Attention.{
  Answers, attention_created, attention_response, care_acked, is_inside_operator,
}
use loca.Routes.Attention.Quiet.{
  Calm, Quiet, bind-Quiet, call-Quiet, reply-Quiet, guard-Quiet, enter-Quiet, actor-Quiet,
  writable-Quiet, stands-Quiet, operator-Quiet, session_principal-Quiet, acking_principal-Quiet,
  reach-Quiet, create_attention-known, claim_attention-known, resolve_attention-known,
}

pub data AttentionRequest : Type 0 where
  create : String → CreateAttention → AttentionRequest
  claim : String → String → String → AttentionRequest
  resolve : String → String → String → AttentionRequest
  ack : String → String → String → AttentionRequest

abbrev status_of : {A : Type 0} → Handler (Status × A) → Handler Status
status_of m = m >>= λ answer. reply answer.0

unfoldable pub serve : Request → Answers → AttentionRequest → Handler Status
serve q o (AttentionRequest.create room body) = status_of (Attention.create_attention q o room body)
serve q o (AttentionRequest.claim room id claimed) =
    status_of (Attention.claim_attention q o room id claimed)
serve q o (AttentionRequest.resolve room id claimed) =
    status_of (Attention.resolve_attention q o room id claimed)
serve q o (AttentionRequest.ack room signal claimed) = Attention.ack_care q o room signal claimed

attention_created-Quiet :
    (a : Result Attention.Attention AttentionError)
    → ((e : AttentionError)
        → a ≡ err e
        → (e ≢ AttentionError.forbidden) × (e ≢ AttentionError.conflict))
    → Quiet (attention_created a)
unfolding Quiet
attention_created-Quiet (ok a) known h = tt
attention_created-Quiet (err AttentionError.not_found) known h = tt
attention_created-Quiet (err AttentionError.no_recipient) known h = tt
attention_created-Quiet (err AttentionError.storage) known h = tt
attention_created-Quiet (err AttentionError.forbidden) known h =
    (known AttentionError.forbidden refl).0 refl
attention_created-Quiet (err AttentionError.conflict) known h =
    (known AttentionError.conflict refl).1 refl

attention_response-Quiet :
    (a : Result Attention.Attention AttentionError)
    → a ≢ err AttentionError.no_recipient
    → Quiet (attention_response a)
unfolding Quiet attention_response
attention_response-Quiet (ok a) known h = tt
attention_response-Quiet (err AttentionError.not_found) known h = tt
attention_response-Quiet (err AttentionError.no_recipient) known h = known refl
attention_response-Quiet (err AttentionError.storage) known h = tt
attention_response-Quiet (err AttentionError.forbidden) known h = tt
attention_response-Quiet (err AttentionError.conflict) known h = tt

care_acked-Quiet : (a : Answer Bool) → Quiet (care_acked a)
unfolding Quiet
care_acked-Quiet failed h = tt
care_acked-Quiet (got true) h = tt
care_acked-Quiet (got false) h = tt

status-Quiet : {A : Type 0} (m : Handler (Status × A)) → Quiet m → Quiet (status_of m)
status-Quiet m quiet = bind-Quiet m (λ answer. reply answer.0) quiet λ answer. reply-Quiet answer.0

module _ (q : Request) (o : Answers) where
  create_attention-Quiet :
      (path : String) (body : CreateAttention) → Quiet (Attention.create_attention q o path body)
  unfolding Attention.create_attention
  create_attention-Quiet path body = bind-Quiet _ _ (enter-Quiet q path) λ room.
      bind-Quiet _ _ (writable-Quiet room) λ _.
        bind-Quiet _ _ (guard-Quiet (not (q.trim body.subject == "")) Status.bad_request) λ _.
          bind-Quiet _ _ (actor-Quiet q body.by) λ by.
            bind-Quiet _ _ (operator-Quiet q room by) λ allowed.
              bind-Quiet _ _ (guard-Quiet allowed Status.forbidden) λ _.
                let sent : CreateAttention = record body {
                  subject = q.trim body.subject;
                  by = by;
                } in
                call-Quiet
                  (λ a.
                    (e : AttentionError)
                    → a ≡ err e
                    → (e ≢ AttentionError.forbidden) × (e ≢ AttentionError.conflict))
                  (λ h.
                    Lifecycle.create_attention q.trim o.ready h room sent o.delivery o.id q.now
                      o.saved o.stored)
                  _
                  (λ h.
                    create_attention-known q.trim o.ready h room sent o.delivery o.id q.now o.saved
                      o.stored)
                  attention_created-Quiet

  claim_attention-Quiet :
      (room id claimed : String) → Quiet (Attention.claim_attention q o room id claimed)
  unfolding Attention.claim_attention
  claim_attention-Quiet room id claimed = bind-Quiet _ _ (stands-Quiet room) λ _.
      bind-Quiet _ _ (actor-Quiet q claimed) λ by.
        bind-Quiet _ _ (reach-Quiet q room id by) λ inside.
          bind-Quiet _ _ (writable-Quiet room) λ _.
            call-Quiet (λ a. a ≢ err AttentionError.no_recipient)
              (λ h. Lifecycle.claim_attention h room id by q.now o.changed) _
              (λ h. claim_attention-known h room id by q.now o.changed) attention_response-Quiet

  resolve_attention-Quiet :
      (room id claimed : String) → Quiet (Attention.resolve_attention q o room id claimed)
  unfolding Attention.resolve_attention
  resolve_attention-Quiet room id claimed = bind-Quiet _ _ (stands-Quiet room) λ _.
      bind-Quiet _ _ (actor-Quiet q claimed) λ by.
        bind-Quiet _ _ (reach-Quiet q room id by) λ inside.
          bind-Quiet _ _ (writable-Quiet room) λ _.
            call-Quiet (λ _. Unit {0}) (λ h. is_inside_operator q h inside room by) _ (λ h. tt)
              λ is_op _. bind-Quiet _ _ (session_principal-Quiet q) λ principal.
                call-Quiet (λ a. a ≢ err AttentionError.no_recipient)
                  (λ h.
                    Lifecycle.resolve_attention h room id by principal is_op q.now o.scope
                      o.changed)
                  _
                  (λ h.
                    resolve_attention-known h room id by principal is_op q.now o.scope o.changed)
                  attention_response-Quiet

  ack_care-Quiet :
      (path signal_id claimed : String) → Quiet (Attention.ack_care q o path signal_id claimed)
  unfolding Attention.ack_care
  ack_care-Quiet path signal_id claimed = bind-Quiet _ _ (enter-Quiet q path) λ room.
      bind-Quiet _ _ (actor-Quiet q claimed) λ by.
        bind-Quiet _ _ (acking_principal-Quiet q room) λ principal.
          call-Quiet (λ _. Unit {0})
            (λ h. Lifecycle.ack_care (o.deliveries principal) h signal_id by q.now) _ (λ h. tt)
            λ a _. care_acked-Quiet a

  serve-Quiet : (w : AttentionRequest) → Quiet (serve q o w)
  unfolding serve
  serve-Quiet (AttentionRequest.create room body) =
      status-Quiet _ (create_attention-Quiet room body)
  serve-Quiet (AttentionRequest.claim room id claimed) =
      status-Quiet _ (claim_attention-Quiet room id claimed)
  serve-Quiet (AttentionRequest.resolve room id claimed) =
      status-Quiet _ (resolve_attention-Quiet room id claimed)
  serve-Quiet (AttentionRequest.ack room signal claimed) = ack_care-Quiet room signal claimed

Calm-quiet : {A : Type 0} (r : Run A) → Calm r → (h : Hub) → r ≢ panicked h
Calm-quiet (next a h') p h e = cc
Calm-quiet (refused s h') p h e = cc
Calm-quiet (panicked h') p h e = elim p [ ]

-- No request about attentions makes a handler panic, whatever it asks for, whatever the hub holds and whatever
-- the store answers.
pub serve_attention_quiet :
    (q : Request) (o : Answers) (w : AttentionRequest) (h h' : Hub) → serve q o w h ≢ panicked h'
unfolding Quiet
serve_attention_quiet q o w h h' = Calm-quiet (serve q o w h) (serve-Quiet q o w h) h'
