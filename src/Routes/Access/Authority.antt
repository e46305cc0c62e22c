-- ===== src/Routes/Access/Authority.antt =====
-- What a handler that goes on has found out about its request.
use loca.Base.{
  ◌≡◌, refl, sym, ◌∙◌, ap, String, Bool, true, false, arith, none, or_else, Result, ok, err,
  Bool-cases, inl, inr,
}
use loca.Hub.State.{Hub, is_deleted, is_archived, is_writable}
use loca.Hub.Door.{EnterDecision}
use loca.Hub.Door.Ruling.{Ruling, enter_decision-Ruling}
use loca.Routes.Handler.{
  Status, Handler, Run, next, refused, panicked, Safe, guard, unwrap, and_then, ◌>>=◌, ◌>>◌,
}
use loca.Routes.Access.{
  Request, session_at, member_token_of, room_decision_of, room_access, answer_of, actor_of,
  is_operator_req, enter, writable, actor, operator,
}
use loca.Routes.Access.Rank.{Operates, ActsAs}
use loca.Routes.Access.Rank.Operating.{is_operator_req-Operates}
use loca.Routes.Access.Rank.Acting.{actor_of-ActsAs}
use loca.Routes.Access.Settled.{
  settle, settle_sessions, room_decision_of_hub, actor_of_hub, actor_of-settle, is_operator_req_hub,
  is_operator_req-settle,
}

-- The room stands, is open for writing, and lets the caller in.
pub record Opened (q : Request) (h : Hub) (id : String) : Type 0 where
  pub standing : is_deleted h id ≡ false
  pub entry :
      Ruling q.identity
        (session_at q h).0
        id
        q.admin
        (or_else q.room q.admin)
        (session_at q h).1
        none
        EnterDecision.allowed
  pub free : is_writable h id ≡ true

-- The caller acts as `by`, an admin or an operator of the room.
pub record Declared (q : Request) (h : Hub) (id claimed by : String) : Type 0 where
  pub opened : Opened q h id
  pub acts : ActsAs q h claimed by
  pub operates : Operates q h id by

answer_of_ok :
    (d : EnterDecision) (id room : String)
    → answer_of d id ≡ ok room
    → (d ≡ EnterDecision.allowed) × (room ≡ id)
unfolding answer_of
answer_of_ok EnterDecision.allowed id room e = (refl, ground arith)
answer_of_ok EnterDecision.banned id room e = cc
answer_of_ok EnterDecision.denied id room e = cc

module _ (q : Request) (h : Hub) where
  room_access-ok :
      (h₁ : Hub) (id room : String)
      → room_access q h id ≡ (h₁, ok room)
      → (h₁ ≡ settle q h)
        × (is_deleted h id ≡ false)
        × ((room_decision_of q h id).1 ≡ EnterDecision.allowed)
        × (room ≡ id)
  unfolding room_access
  room_access-ok h₁ id room e = elim (Bool-cases (is_deleted h id)) [
    | inl sealed ↦ ground (arith, sealed)
    | inr standing ↦
        let found : answer_of (room_decision_of q h id).1 id ≡ ok room = ground (arith, standing) in
        let answer = answer_of_ok (room_decision_of q h id).1 id room found in
        (ground (arith, standing, room_decision_of_hub q h id), standing, answer.0, answer.1)
  ]

  is_writable-settle : (id : String) → is_writable (settle q h) id ≡ is_writable h id
  unfolding is_writable is_deleted is_archived
  is_writable-settle id = ap (λ (x : Hub). is_writable x id) (settle_sessions q h)

-- The rule of the door by which the caller may enter.
room_decision_of-Ruling :
    (q : Request) (h : Hub) (id : String)
    → (room_decision_of q h id).1 ≡ EnterDecision.allowed
    → Ruling q.identity
        (session_at q h).0
        id
        q.admin
        (or_else q.room q.admin)
        (session_at q h).1
        none
        EnterDecision.allowed
unfolding room_decision_of member_token_of
room_decision_of-Ruling q h id e =
    (enter_decision-Ruling q.identity (session_at q h).0 id q.admin (or_else q.room q.admin)
        (session_at q h).1 none EnterDecision.allowed).0
      e

module _ {B : Type 0} (R : B → Hub → Type 0) where
  -- A run that goes on to `R`, or refuses.
  abbrev pub Goes : Run B → Type 0
  Goes r = Safe (λ _. Unit {0}) R r

  pub Goes-next : (r : Run B) (b : B) (h : Hub) → Goes r → r ≡ next b h → R b h
  Goes-next (next b' h') b h p e =
      let parts : (b' ≡ b) × (h' ≡ h) = (ground (arith, e), ground (arith, e)) in
      rw (sym parts.0, sym parts.1) p
  Goes-next (refused s h') b h p e = cc
  Goes-next (panicked h') b h p e = cc

  pub passing :
      (b : Bool) (s : Status) (k : Handler B) (h : Hub)
      → (b ≡ true → Goes (k h))
      → Goes ((guard b s >> k) h)
  passing true s k h rest = rest refl
  passing false s k h rest = tt

  writing :
      (room : String) (k : Handler B) (h : Hub)
      → (is_writable h room ≡ true → Goes (k h))
      → Goes ((writable room >> k) h)
  unfolding writable
  writing room k h rest = passing (is_writable h room) Status.conflict k h rest

  asked :
      {A : Type 0} (r : Hub × Result A Status) (k : A → Handler B)
      → ((a : A) → r ≡ (r.0, ok a) → Goes (k a r.0))
      → Goes (and_then (unwrap r.1 r.0) k)
  asked (h, ok a) k rest = rest a refl
  asked (h, err s) k rest = tt

  module _ (q : Request) (h : Hub) where
    pub opening :
        (id : String) (k : String → Handler B)
        → (Opened q h id → Goes (k id (settle q h)))
        → Goes ((enter q id >>= λ room. writable room >> k room) h)
    unfolding enter
    opening id k rest =
        asked (room_access q h id) (λ room. writable room >> k room)
          λ room e.
            let a = room_access-ok q h (room_access q h id).0 id room e in
            writing room (k room) (room_access q h id).0 λ w.
              rw (a.3, a.0)
                (rest (record {
                  standing = a.1;
                  entry = room_decision_of-Ruling q h id a.2;
                  free =
                      sym (is_writable-settle q h id)
                      ∙ sym (ap (λ x. is_writable x id) a.0)
                      ∙ ap (is_writable (room_access q h id).0) (sym a.3)
                      ∙ w;
                }))

    pub declaring :
        (id claimed : String) (k : String → Handler B)
        → Opened q h id
        → ((by : String) → Declared q h id claimed by → Goes (k by (settle q h)))
        → Goes (
            (actor q claimed >>= λ by.
            operator q id by >>= λ allowed. guard allowed Status.forbidden >> k by)
              (settle q h))
    unfolding actor operator
    declaring id claimed k opened rest = asked (actor_of q (settle q h) claimed) _ λ by e.
        let same = actor_of-settle q h claimed in
        let moved : (actor_of q (settle q h) claimed).0 ≡ settle q h =
          ap (λ (r : Hub × Result String Status). r.0) same ∙ actor_of_hub q h claimed in
        let asks : is_operator_req q (actor_of q (settle q h) claimed).0 id by
            ≡ is_operator_req q h id by =
          ap (λ x. is_operator_req q x id by) moved ∙ is_operator_req-settle q h id by in
        let back : (is_operator_req q (actor_of q (settle q h) claimed).0 id by).0 ≡ settle q h =
          ap (λ (r : Hub × Bool). r.0) asks ∙ is_operator_req_hub q h id by in
        passing (is_operator_req q (actor_of q (settle q h) claimed).0 id by).1 Status.forbidden
          (k by) (is_operator_req q (actor_of q (settle q h) claimed).0 id by).0
          λ allowed. rw (back) (
            rest by (record {
              opened = opened;
              acts = actor_of-ActsAs q h claimed by (
                  sym (ap (λ (r : Hub × Result String Status). r.1) same)
                  ∙ ap (λ (r : Hub × Result String Status). r.1) e);
              operates =
                  is_operator_req-Operates q h id by
                    (sym (ap (λ (r : Hub × Bool). r.1) asks) ∙ allowed);
            }))
