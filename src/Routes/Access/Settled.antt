-- ===== src/Routes/Access/Settled.antt =====
-- A look at a session drops it when it is stale. One look settles the hub: every later one of the same
-- request finds the same, and nothing but sessions has changed.
use loca.Base.{
  ◌≡◌, refl, sym, ◌∙◌, ap, String, Bool, true, not, ◌&&◌, Option, none, some, string_eq,
  if◌then◌else◌, arith, Option-cases, inl, inr, Result, ok, err, is_some, map_option, unwrap_or,
}
use loca.Base.Dict
use loca.Base.Dict.{Dict}
use loca.Base.Dict.Laws.{lookup-remove}
use loca.Hub.State.{Hub, SessionIdentity}
use loca.Hub.Door.{
  RequestAuthority, is_building_admin, credential_authority, session_authority, is_master,
}
use loca.Hub.Door.Sessions.{session_identity, resolve_authority}
use loca.Routes.Handler.{Status}
use loca.Routes.Access.{
  Request, session_at, authority_of, room_decision_of, actor_of, is_admin_req, is_loca_operator,
  is_operator_req,
}

module _ (q : Request) (h : Hub) where
  abbrev pub settle : Hub
  settle = (session_at q h).0

  pub settle_sessions : settle ≡ record h { sessions = settle.sessions }
  unfolding session_at session_identity
  settle_sessions = elim (Option-cases q.session) [
    | inl nothing ↦ rw (nothing, session_identity) refl
    | inr (t, given) ↦ elim (Option-cases (Dict.lookup t h.sessions)) [
      | inl unknown ↦ ground (arith, given)
      | inr (x, known) ↦ ground (arith, given)
    ]
  ]

  pub session_at-settle : session_at q settle ≡ session_at q h
  unfolding session_at session_identity
  session_at-settle = elim (Option-cases q.session) [
    | inl nothing ↦ ground (arith, nothing)
    | inr (t, given) ↦ elim (Option-cases (Dict.lookup t h.sessions)) [
      | inl unknown ↦ ground (arith, given)
      | inr (x, known) ↦
          ground (arith, given, lookup-remove t t h.sessions, string_eq.equals_iff t t)
    ]
  ]

module _ (q : Request) where
  abbrev pub authority_from : Hub × Option SessionIdentity → Hub × RequestAuthority
  authority_from (h', found) = elim found [
    | some x ↦ (h', session_authority q.identity x)
    | none ↦ (h', credential_authority q.identity h' q.admin)
  ]

  pub authority_of_lem : (h : Hub) → authority_of q h ≡ authority_from (session_at q h)
  unfolding authority_of resolve_authority session_at
  authority_of_lem h = ground arith

  pub authority_of-settle : (h : Hub) → authority_of q (settle q h) ≡ authority_of q h
  authority_of-settle h =
      authority_of_lem (settle q h)
      ∙ ap authority_from (session_at-settle q h)
      ∙ sym (authority_of_lem h)

  pub authority_of_hub : (h : Hub) → (authority_of q h).0 ≡ settle q h
  unfolding authority_of resolve_authority session_at
  authority_of_hub h = ground arith

  pub settle-settle : (h : Hub) → settle q (settle q h) ≡ settle q h
  settle-settle h = ap (λ (r : Hub × Option SessionIdentity). r.0) (session_at-settle q h)

  pub is_admin_req_hub : (h : Hub) → (is_admin_req q h).0 ≡ settle q h
  unfolding is_admin_req
  is_admin_req_hub h = authority_of_hub h

  pub is_loca_operator_hub :
      (h : Hub) (room name : String) → (is_loca_operator q h room name).0 ≡ settle q h
  unfolding is_loca_operator
  is_loca_operator_hub h room name = ground (arith, authority_of_hub h)

  pub is_operator_req_hub :
      (h : Hub) (room by : String) → (is_operator_req q h room by).0 ≡ settle q h
  unfolding is_operator_req
  is_operator_req_hub h room by = ground (
    arith,
    is_admin_req_hub h,
    is_loca_operator_hub (is_admin_req q h).0 room by,
    settle-settle h,
  )

  pub actor_of_hub : (h : Hub) (claimed : String) → (actor_of q h claimed).0 ≡ settle q h
  unfolding actor_of
  actor_of_hub h claimed = ground (arith, authority_of_hub (session_at q h).0, settle-settle h)

  pub room_decision_of_hub : (h : Hub) (room : String) → (room_decision_of q h room).0 ≡ settle q h
  unfolding room_decision_of
  room_decision_of_hub h room = refl

  -- The second look gives the first one's answer.
  pub is_admin_req-settle : (h : Hub) → is_admin_req q (settle q h) ≡ is_admin_req q h
  unfolding is_admin_req
  is_admin_req-settle h =
      ap (λ (r : Hub × RequestAuthority). (r.0, is_building_admin r.1)) (authority_of-settle h)

  abbrev actor_from : String → Hub × Option SessionIdentity → Hub × Result String Status
  actor_from claimed (h₁, session) =
      let (h₂, authority) = authority_of q h₁ in
      let legacy_root = is_some q.admin && is_master h₂ q.admin in
      let name = map_option (λ (x : SessionIdentity). x.name) session in
      if q.require_sessions
      then elim name [ none ↦ (h₁, err Status.unauthorized) | some n ↦ (h₁, ok n) ]
      else if not legacy_root && is_some authority.principal_id && is_some authority.display_name
      then (h₂, ok (unwrap_or "" authority.display_name))
      else elim name [
        | some n ↦ (h₂, ok n)
        | none ↦ if is_some q.session then (h₂, err Status.unauthorized) else (h₂, ok claimed)
      ]

  pub actor_of-settle :
      (h : Hub) (claimed : String) → actor_of q (settle q h) claimed ≡ actor_of q h claimed
  unfolding actor_of
  actor_of-settle h claimed = ap (λ r. actor_from claimed r) (session_at-settle q h)

  pub is_operator_req-settle :
      (h : Hub) (room by : String)
      → is_operator_req q (settle q h) room by ≡ is_operator_req q h room by
  unfolding is_operator_req
  is_operator_req-settle h room by =
      ap (λ (r : Hub × Bool). if r.1 then (r.0, true) else is_loca_operator q r.0 room by)
        (is_admin_req-settle h)
