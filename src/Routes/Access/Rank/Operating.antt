-- ===== src/Routes/Access/Rank/Operating.antt =====
-- The checks of who may operate or run a room (crates/server/src/routes/access.rs, routes/rooms.rs there).
use loca.Base.{
  ◌≡◌, ◌⊎◌, sym, ap, ◌∙◌, inl, inr, String, Bool, true, false, not, ◌&&◌, ◌==◌, Option, some,
  string_eq, nat_eq, option_eq, arith, if◌then◌else◌, is_some, unwrap_or, map_option, Option-cases,
  Bool-cases,
}
use loca.Base.Dict
use loca.Hub.State.{Hub, SessionIdentity}
use loca.Hub.Door.{RequestAuthority, building_role_eq, is_building_admin}
use loca.Routes.Access.{
  Request, session_at, authority_of, is_admin_req, is_loca_operator, is_operator_req,
  is_room_operator_req, appointed_or_listed, listed_operator,
}
use loca.Routes.Access.Settled.{
  settle, settle_sessions, session_at-settle, authority_of-settle, authority_of_hub,
  is_admin_req_hub,
}
use loca.Routes.Access.Rank.{Operates, Runs}
use loca.Routes.Access.Rank.Sound.{authority_of-Backed, is_admin_req-Governs, session_at-some}

appointed_or_listed-cases :
    (q : Request) (h : Hub) (a : RequestAuthority) (room name : String)
    → appointed_or_listed q h a room name ≡ true
    → ((id : String) × (a.principal_id ≡ some id) × (q.identity.loca_operator room ≡ some id))
      ⊎ ((q.identity.is_persistent ≡ false) × (listed_operator h room name ≡ true))
unfolding appointed_or_listed
appointed_or_listed-cases q h a room name e = elim (Option-cases a.principal_id) [
  | inl no_principal ↦ inr (ground (arith, no_principal), ground (arith, no_principal))
  | inr (id, is) ↦ elim (Option-cases (q.identity.loca_operator room)) [
    | inl nobody_there ↦ inr (ground (arith, is, nobody_there), ground (arith, is, nobody_there))
    | inr (appointed, there) ↦
        let same : appointed ≡ id =
          (string_eq.equals_iff appointed id).0 (ground (arith, is, there)) in
        inl (id, is, there ∙ ap some same)
  ]
]

listed_operator-Operates :
    (q : Request) (h : Hub) (room name : String)
    → q.identity.is_persistent ≡ false
    → listed_operator h room name ≡ true
    → Operates q h room name
unfolding listed_operator
listed_operator-Operates q h room name hot e = elim (Option-cases (Dict.lookup room h.rooms)) [
  | inl missing ↦ ground (arith, missing)
  | inr (r, there) ↦ Operates.listed r hot there (ground (arith, there))
]

listed_operator-settle :
    (q : Request) (h : Hub) (room name : String)
    → listed_operator (settle q h) room name ≡ listed_operator h room name
unfolding listed_operator
listed_operator-settle q h room name =
    ap (λ (x : Hub). listed_operator x room name) (settle_sessions q h)

appointed_or_listed-Operates :
    (q : Request) (h : Hub) (room name : String)
    → appointed_or_listed q (authority_of q h).0 (authority_of q h).1 room name ≡ true
    → Operates q h room name
appointed_or_listed-Operates q h room name e =
    elim (appointed_or_listed-cases q (authority_of q h).0 (authority_of q h).1 room name e) [
      | inl (id, is, there) ↦
          let (p, known, same, shown) = (authority_of-Backed q h).principal id is in
          Operates.appointed p known (there ∙ ap some (sym same))
      | inr (hot, listed) ↦ listed_operator-Operates q h room name hot (
          sym (listed_operator-settle q h room name)
          ∙ sym (ap (λ (x : Hub). listed_operator x room name) (authority_of_hub q h))
          ∙ listed)
    ]

-- Whom the check of a room's operators lets pass under a name, operates the room.
is_loca_operator-Operates :
    (q : Request) (h : Hub) (room name : String)
    → (is_loca_operator q h room name).1 ≡ true
    → Operates q h room name
unfolding is_loca_operator is_admin_req
is_loca_operator-Operates q h room name e =
    let b = authority_of-Backed q h in
    elim (Bool-cases (is_building_admin (authority_of q h).1)) [
      | inl admin ↦ Operates.governs (is_admin_req-Governs q h admin)
      | inr no_admin ↦ elim (Bool-cases ((authority_of q h).0.admin_token == "")) [
        | inl keyless ↦ Operates.unguarded (
            sym (ap (λ (x : Hub). x.admin_token) (authority_of_hub q h ∙ settle_sessions q h))
            ∙ (string_eq.equals_iff (authority_of q h).0.admin_token "").0 keyless)
        | inr keyed ↦
            appointed_or_listed-Operates q h room name (ground (arith, e, no_admin, keyed))
      ]
    ]

is_loca_operator-settle :
    (q : Request) (h : Hub) (room name : String)
    → is_loca_operator q (settle q h) room name ≡ is_loca_operator q h room name
unfolding is_loca_operator
is_loca_operator-settle q h room name =
    ap
      (λ (r : Hub × RequestAuthority).
        if is_building_admin r.1
        then (r.0, true)
        else if r.0.admin_token == ""
        then (r.0, true)
        else (r.0, appointed_or_listed q r.0 r.1 room name))
      (authority_of-settle q h)

pub is_operator_req-Operates :
    (q : Request) (h : Hub) (room by : String)
    → (is_operator_req q h room by).1 ≡ true
    → Operates q h room by
unfolding is_operator_req
is_operator_req-Operates q h room by e = elim (Bool-cases (is_admin_req q h).1) [
  | inl admin ↦ Operates.governs (is_admin_req-Governs q h admin)
  | inr no_admin ↦
      let same : is_loca_operator q (is_admin_req q h).0 room by ≡ is_loca_operator q h room by =
        ap (λ x. is_loca_operator q x room by) (is_admin_req_hub q h)
        ∙ is_loca_operator-settle q h room by in
      is_loca_operator-Operates q h room by
        (sym (ap (λ (r : Hub × Bool). r.1) same) ∙ ground (arith, e, no_admin))
]

different : {s t : String} → s ≡ t → ¬ ((s == t) ≡ false)
different {s} {t} e apart = ground (arith, apart, string_eq.equals_iff s t)

pub has_principal :
    (master : Bool) (q : Request) (a : RequestAuthority)
    → (not (is_some q.admin && master) && is_some a.principal_id && is_some a.display_name) ≡ true
    → is_some a.principal_id ≡ true
has_principal master q a e = ground (arith, e)

abbrev pub named : Option SessionIdentity → String
named found = unwrap_or "" (map_option (λ (x : SessionIdentity). x.name) found)

room_operator_named :
    (q : Request) (h : Hub) (room : String)
    → (is_admin_req q h).1 ≡ false
    → (is_room_operator_req q h room).1 ≡ true
    → ((named (session_at q (is_admin_req q h).0).1 == "") ≡ false)
      × ((is_loca_operator q
            (session_at q (is_admin_req q h).0).0
            room
            (named (session_at q (is_admin_req q h).0).1)).1
          ≡ true)
unfolding is_room_operator_req
room_operator_named q h room no_admin e =
    elim (Bool-cases (named (session_at q (is_admin_req q h).0).1 == "")) [
      | inl unnamed ↦ ground (arith, e, no_admin, unnamed)
      | inr given ↦ (given, ground (arith, e, no_admin, given))
    ]

-- Whom the check of those who run a room lets pass, runs it.
pub is_room_operator_req-Runs :
    (q : Request) (h : Hub) (room : String)
    → (is_room_operator_req q h room).1 ≡ true
    → Runs q h room
is_room_operator_req-Runs q h room e = elim (Bool-cases (is_admin_req q h).1) [
  | inl admin ↦ Runs.governs (is_admin_req-Governs q h admin)
  | inr no_admin ↦
      let looked : session_at q (is_admin_req q h).0 ≡ session_at q h =
        ap (session_at q) (is_admin_req_hub q h) ∙ session_at-settle q h in
      let run = room_operator_named q h room no_admin e in
      elim (Option-cases (session_at q h).1) [
        | inl none_found ↦
            let blank : named (session_at q (is_admin_req q h).0).1 ≡ "" =
              ap (λ (r : Hub × Option SessionIdentity). named r.1) looked ∙ ap named none_found in
            elim (different blank run.0) [ ]
        | inr (x, found) ↦
            let name : named (session_at q (is_admin_req q h).0).1 ≡ x.name =
              ap (λ (r : Hub × Option SessionIdentity). named r.1) looked ∙ ap named found in
            let same : is_loca_operator q (session_at q (is_admin_req q h).0).0 room
                  (named (session_at q (is_admin_req q h).0).1)
                ≡ is_loca_operator q h room x.name =
              ap (λ (r : Hub × Option SessionIdentity). is_loca_operator q r.0 room (named r.1))
                looked
              ∙ ap (λ f. is_loca_operator q (settle q h) room (named f)) found
              ∙ is_loca_operator-settle q h room x.name in
            Runs.operator x (session_at-some q h x found) (λ blank. different (name ∙ blank) run.0)
              (is_loca_operator-Operates q h room x.name
                (sym (ap (λ (r : Hub × Bool). r.1) same) ∙ run.1))
      ]
]
