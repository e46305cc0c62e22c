-- ===== src/Examples/Noticing.antt =====
-- An attention on the example: claimed, resolved, and asked for again.
use loca.Base.{◌≡◌, ◌≢◌, refl, true, false, none, some, [], ◌∷◌, got, failed, ok, string_eq}
use loca.Base.Dict
use loca.Protocol.Attention.{Attention, AttentionStatus, AttentionAudience, CareReason}
use loca.Hub.State.{Hub}
use loca.Hub.Attention.Lifecycle.{claim_attention, resolve_attention, put_claim, put_resolution}
use loca.Hub.Attention.Lifecycle.Later.{RoomsLater}
use loca.Hub.Attention.Lifecycle.Moves.{Move, Moves, Moves-RoomsLater}
use loca.Hub.Attention.Lifecycle.Once.{claim_attention_once, resolve_attention_once}
use loca.Routes.Handler.{panicked}
use loca.Routes.Attention.{Answers}
use loca.Routes.Attention.Requests.{AttentionRequest, serve, serve_attention_quiet}
use loca.Examples.Data.{atelier, server, asks}

abbrev call : Attention
call = record {
  id = "att1";
  room = "atelier";
  reason = CareReason.manual;
  subject = "look";
  audience = AttentionAudience.person "ada";
  owner = some "ada";
  group = none;
  participants = "ada" ∷ [];
  created_by = "bot";
  created_at = 9;
  attempt = 1;
  escalated = false;
  status = AttentionStatus.opened;
  delivered_at = none;
  claimed_by = none;
  claimed_at = none;
  resolved_at = none;
}

abbrev calling : Hub
calling = record server {
  rooms = ("atelier", record atelier { attentions = ("att1", call) ∷ [] }) ∷ [];
}

abbrev taken : Hub
taken = (claim_attention calling "atelier" "att1" "ada" 20 (got true)).0

takes :
    claim_attention calling "atelier" "att1" "ada" 20 (got true)
    ≡ (taken, ok (put_claim "ada" 20 call))
unfolding claim_attention Dict.lookup
takes = refl

abbrev closed : Hub
closed = (resolve_attention calling "atelier" "att1" "bot" none true 30 failed (got true)).0

closes :
    resolve_attention calling "atelier" "att1" "bot" none true 30 failed (got true)
    ≡ (closed, ok (put_resolution 30 call))
unfolding resolve_attention Dict.lookup
closes = refl

abbrev finished : Hub
finished = (resolve_attention taken "atelier" "att1" "bot" none true 30 failed (got true)).0

runs : Moves calling finished
runs =
    Moves.step (Moves.step Moves.start (Move.claim "atelier" "att1" "ada" 20 (got true)))
      (Move.resolve "atelier" "att1" "bot" none true 30 failed (got true))

Moves-RoomsLater_example : RoomsLater calling.rooms finished.rooms
Moves-RoomsLater_example = Moves-RoomsLater calling finished runs

claim_attention_once_example :
    claim_attention taken "atelier" "att1" "ada" 25 (got true)
    ≢ (taken, ok (put_claim "ada" 25 call))
claim_attention_once_example =
    claim_attention_once calling taken taken taken "atelier" "att1" "ada" "ada" 20 25 (got true)
      (got true) (put_claim "ada" 20 call) (put_claim "ada" 25 call) takes Moves.start

resolve_attention_once_example :
    resolve_attention closed "atelier" "att1" "ada" none true 40 failed (got true)
    ≢ (closed, ok (put_resolution 40 call))
resolve_attention_once_example =
    resolve_attention_once calling closed closed closed "atelier" "att1" "bot" "ada" none none true
      true 30 40 failed failed (got true) (got true) (put_resolution 30 call)
      (put_resolution 40 call) closes Moves.start

abbrev outside : Answers
outside = record {
  delivery = "d1";
  id = "att2";
  ready = λ name. true;
  saved = true;
  stored = none;
  scope = got none;
  changed = got true;
  deliveries = λ principal. record {
    is_persistent = false;
    attention_id_for_delivery = λ d. none;
    attention = λ id. none;
    ack_care_scoped = got false;
  };
}

serve_attention_quiet_example :
    serve asks outside (AttentionRequest.claim "atelier" "att1" "ada") calling ≢ panicked calling
serve_attention_quiet_example =
    serve_attention_quiet asks outside (AttentionRequest.claim "atelier" "att1" "ada") calling
      calling
