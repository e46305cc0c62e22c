-- ===== src/Routes/Access/Safety.antt =====
-- The steps that handlers begin with keep whatever sessions have no part in.
use loca.Base.{◌≡◌, refl, sym, subst, ◌∙◌, String, true, ok, inl, inr, Bool-cases}
use loca.Base.Dict.{Dict}
use loca.Hub.State.{Hub, SessionIdentity, is_deleted, is_writable}
use loca.Routes.Handler.{Safe, asked-Safe}
use loca.Routes.Access.{
  Request, room_decision_of, room_access, actor_of, is_operator_req, enter, writable, actor,
  operator,
}
use loca.Routes.Access.Settled.{
  settle, settle_sessions, actor_of_hub, is_operator_req_hub, room_decision_of_hub,
}

-- Sessions have no part in a property.
abbrev pub Sessionless : (Hub → Type 0) → Type 0
Sessionless P = (h : Hub) (s : Dict String SessionIdentity) → P h → P (record h { sessions = s })

module _ (E Q : Hub → Type 0) (weaken : (h : Hub) → Q h → E h) (free : Sessionless Q)
    (q : Request) where
  settle-kept : (h h' : Hub) → h' ≡ settle q h → Q h → Q h'
  settle-kept h h' e p =
      subst Q (sym (settle_sessions q h) ∙ sym e) (free h (settle q h).sessions p)

  room_access-kept : (h : Hub) (id : String) → Q h → Q (room_access q h id).0
  unfolding room_access
  room_access-kept h id p = elim (Bool-cases (is_deleted h id)) [
    | inl sealed ↦ rw (sealed) p
    | inr standing ↦
        rw (standing) (settle-kept h (room_decision_of q h id).0 (room_decision_of_hub q h id) p)
  ]

  pub enter-Safe :
      (h : Hub) (id : String)
      → Q h
      → Safe E (λ room h'. (room_access q h id ≡ (h', ok room)) × Q h') (enter q id h)
  unfolding enter
  enter-Safe h id p = asked-Safe E Q weaken (room_access q h id) (room_access-kept h id p)

  pub actor-Safe :
      (h : Hub) (claimed : String)
      → Q h
      → Safe E (λ by h'. (actor_of q h claimed ≡ (h', ok by)) × Q h') (actor q claimed h)
  unfolding actor
  actor-Safe h claimed p =
      asked-Safe E Q weaken (actor_of q h claimed)
        (settle-kept h (actor_of q h claimed).0 (actor_of_hub q h claimed) p)

  pub operator-Safe :
      (h : Hub) (room by : String)
      → Q h
      → Safe E (λ b h'. (is_operator_req q h room by ≡ (h', b)) × Q h') (operator q room by h)
  unfolding operator
  operator-Safe h room by p =
      (refl, settle-kept h (is_operator_req q h room by).0 (is_operator_req_hub q h room by) p)

  pub writable-Safe :
      (h : Hub) (room : String)
      → Q h
      → Safe E (λ (_ : Unit {0}) h'. (is_writable h' room ≡ true) × Q h') (writable room h)
  unfolding writable
  writable-Safe h room p = elim (Bool-cases (is_writable h room)) [
    | inl free ↦ rw (free) (free, p)
    | inr shut ↦ rw (shut) (weaken h p)
  ]
