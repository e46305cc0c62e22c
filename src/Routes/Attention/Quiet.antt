-- ===== src/Routes/Attention/Quiet.antt =====
-- Steps of the handlers of attentions, and panics (crates/server/src/routes/attention.rs).
use loca.Base.{
  ◌≡◌, ◌≢◌, arith, ℕ, String, Bool, true, false, Option, string_eq, Answer, Result, ok, err,
  Option-cases, inl, inr,
}
use loca.Base.Dict
use loca.Protocol.Attention.{Attention, CreateAttention}
use loca.Hub.State.{Hub, Room}
use loca.Hub.Door.{EnterDecision}
use loca.Hub.Attention.Lifecycle
use loca.Hub.Attention.Lifecycle.{AttentionError, close_attention}
use loca.Routes.Handler.{
  Status, Handler, Run, Safe, next, refused, panicked, reply, guard, call, unwrap, and_then, ◌>>=◌,
}
use loca.Routes.Access.{Request, enter, writable, actor, operator}
use loca.Routes.Attention.{admitted, reach, stands, session_principal, acking_principal}

-- A run that does not panic.
abbrev pub Calm : {A : Type 0} → Run A → Type 0
Calm r = Safe (λ _. Unit {0}) (λ _ _. Unit {0}) r

unfoldable pub Quiet : {A : Type 0} → Handler A → Type 0
Quiet m = (h : Hub) → Calm (m h)

and_then-Calm :
    {A B : Type 0} (r : Run A) (k : A → Handler B)
    → Calm r
    → ((a : A) (h : Hub) → Calm (k a h))
    → Calm (and_then r k)
and_then-Calm (next a h) k p rest = rest a h
and_then-Calm (refused s h) k p rest = tt
and_then-Calm (panicked h) k p rest = p

module _ {A B : Type 0} where
  pub bind-Quiet :
      (m : Handler A) (k : A → Handler B) → Quiet m → ((a : A) → Quiet (k a)) → Quiet (m >>= k)
  unfolding Quiet
  bind-Quiet m k first rest h = and_then-Calm (m h) k (first h) rest

  -- A call whose answer meets `N`.
  pub call-Quiet :
      (N : A → Type 0) (f : Hub → Hub × A) (k : A → Handler B)
      → ((h : Hub) → N (f h).1)
      → ((a : A) → N a → Quiet (k a))
      → Quiet (call f >>= k)
  unfolding Quiet
  call-Quiet N f k known rest h = rest (f h).1 (known h) (f h).0

pub reply-Quiet : {A : Type 0} (a : A) → Quiet (reply a)
unfolding Quiet
reply-Quiet a h = tt

pub guard-Quiet : (b : Bool) (s : Status) → Quiet (guard b s)
unfolding Quiet
guard-Quiet true s h = tt
guard-Quiet false s h = tt

unwrap-Calm : {A : Type 0} (r : Result A Status) (h : Hub) → Calm (unwrap r h)
unwrap-Calm (ok a) h = tt
unwrap-Calm (err s) h = tt

pub enter-Quiet : (q : Request) (room : String) → Quiet (enter q room)
unfolding enter Quiet
enter-Quiet q room h = unwrap-Calm _ _

pub actor-Quiet : (q : Request) (claimed : String) → Quiet (actor q claimed)
unfolding actor Quiet
actor-Quiet q claimed h = unwrap-Calm _ _

pub writable-Quiet : (room : String) → Quiet (writable room)
unfolding writable Quiet
writable-Quiet room h = guard-Quiet _ _ _

pub stands-Quiet : (room : String) → Quiet (stands room)
unfolding stands Quiet
stands-Quiet room h = guard-Quiet _ _ _

pub operator-Quiet : (q : Request) (room by : String) → Quiet (operator q room by)
unfolding operator Quiet
operator-Quiet q room by h = tt

pub session_principal-Quiet : (q : Request) → Quiet (session_principal q)
unfolding session_principal Quiet
session_principal-Quiet q h = tt

pub acking_principal-Quiet : (q : Request) (room : String) → Quiet (acking_principal q room)
unfolding acking_principal session_principal Quiet
acking_principal-Quiet q room h = tt

admitted-Quiet : (d : EnterDecision) (owns : Bool) → Quiet (admitted d owns)
unfolding admitted Quiet
admitted-Quiet EnterDecision.allowed owns h = tt
admitted-Quiet EnterDecision.banned owns h = tt
admitted-Quiet EnterDecision.denied true h = tt
admitted-Quiet EnterDecision.denied false h = tt

pub reach-Quiet : (q : Request) (room id by : String) → Quiet (reach q room id by)
unfolding reach Quiet
reach-Quiet q room id by h = admitted-Quiet _ _ _

-- Answers of the hub.
pub create_attention-known :
    (trim : String → String) (ready : String → Bool) (h : Hub) (room : String)
    (req : CreateAttention) (delivery id : String) (now : ℕ) (saved : Bool)
    (stored : Option Attention)
    → (e : AttentionError)
    → (Lifecycle.create_attention trim ready h room req delivery id now saved stored).1 ≡ err e
    → (e ≢ AttentionError.forbidden) × (e ≢ AttentionError.conflict)
unfolding Lifecycle.create_attention
create_attention-known trim ready h room req delivery id now saved stored e is =
    ((λ f. ground (arith, is)), λ f. ground (arith, is))

pub claim_attention-known :
    (h : Hub) (room id by : String) (now : ℕ) (stored : Answer Bool)
    → (Lifecycle.claim_attention h room id by now stored).1 ≢ err AttentionError.no_recipient
unfolding Lifecycle.claim_attention
claim_attention-known h room id by now stored e = ground arith

close_attention-known :
    (h : Hub) (room id : String) (r : Room) (a : Attention) (now : ℕ) (stored : Answer Bool)
    → (close_attention h room id r a now stored).1 ≢ err AttentionError.no_recipient
unfolding close_attention
close_attention-known h room id r a now stored e = ground arith

pub resolve_attention-known :
    (h : Hub) (room id by : String) (principal : Option String) (is_op : Bool) (now : ℕ)
    (scope : Answer (Option (Option String))) (stored : Answer Bool)
    → (Lifecycle.resolve_attention h room id by principal is_op now scope stored).1
      ≢ err AttentionError.no_recipient
unfolding Lifecycle.resolve_attention
resolve_attention-known h room id by principal is_op now scope stored e =
    elim (Option-cases (Dict.lookup room h.rooms)) [
      | inl x ↦ ground (arith, x)
      | inr (r, x) ↦ elim (Option-cases (Dict.lookup id r.attentions)) [
        | inl y ↦ ground (arith, x, y)
        | inr (a, y) ↦ ground (arith, x, y, close_attention-known h room id r a now stored)
      ]
    ]
