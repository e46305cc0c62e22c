-- ===== src/Routes/Access/Rank/Sound.antt =====
-- The checks of rank and name against the relations of rank and name (crates/server/src/routes/access.rs,
-- crates/server/src/hub.rs).
use loca.Base.{
  ◌≡◌, ◌≢◌, ◌⊎◌, refl, sym, ap, subst, ◌∙◌, inl, inr, String, true, false, ◌||◌, ◌==◌, Option, none,
  some, string_eq, nat_eq, option_eq, option_beq_iff, arith, unwrap_or, Option-cases, Bool-cases,
}
use loca.Base.Dict
use loca.Hub.State.{Hub, BuildingRole, SessionIdentity}
use loca.Hub.Door.{
  PrincipalIdentity, RequestAuthority, building_role_eq, is_building_admin, is_master_authority,
  credential_authority, session_authority, authority_from_principal, is_master, smaster_name,
  nobody, unrecorded,
}
use loca.Hub.Door.Sessions.{session_identity, is_revoked_session, is_expired}
use loca.Routes.Access.{Request, session_at, authority_of, is_admin_req, is_master_req}
use loca.Routes.Access.Settled.{settle, settle_sessions, authority_of_lem, authority_from}
use loca.Routes.Access.Rank.{LiveSession, NoSession, Recorded, HasRole, Governs}

pub session_at-some :
    (q : Request) (h : Hub) (x : SessionIdentity) → (session_at q h).1 ≡ some x → LiveSession q h x
unfolding session_at session_identity is_revoked_session is_expired
session_at-some q h x e = elim (Option-cases q.session) [
  | inl nothing ↦ ground (arith, nothing)
  | inr (t, given) ↦ elim (Option-cases (Dict.lookup t h.sessions)) [
    | inl unknown ↦ ground (arith, given, unknown)
    | inr (y, known) ↦
        elim (Bool-cases (is_revoked_session q.identity q.now t y || is_expired q.now y)) [
          | inl stale ↦ ground (arith, given, known, stale)
          | inr good ↦
              let same : y ≡ x = ground (arith, given, known, good) in
              subst (λ z. LiveSession q h z) same
                (record {
                  token = t;
                  shown = given;
                  filed = known;
                  not_over = elim (Bool-cases (y.expires_at == 0)) [
                    | inl forever ↦ inl ((nat_eq.equals_iff y.expires_at 0).0 forever)
                    | inr ends ↦ inr (ground (arith, good, ends))
                  ];
                  not_ended = elim (Option-cases y.principal_id) [
                    | inl nobody ↦ inl nobody
                    | inr (id, is) ↦ elim (Bool-cases q.identity.is_persistent) [
                      | inr hot ↦ inr (inl hot)
                      | inl kept ↦ inr (inr (ground (arith, good, is, kept)))
                    ]
                  ];
                })
        ]
  ]
]

-- A session that holds is found.
LiveSession-session_at :
    (q : Request) (h : Hub) (x : SessionIdentity) → LiveSession q h x → (session_at q h).1 ≡ some x
unfolding session_at session_identity is_revoked_session is_expired
LiveSession-session_at q h x l =
    ground (arith, l.shown, l.filed, l.not_over, l.not_ended, nat_eq.equals_iff x.expires_at 0)

session_at-none : (q : Request) (h : Hub) → (session_at q h).1 ≡ none → NoSession q h
session_at-none q h e x l = ground (arith, LiveSession-session_at q h x l)

credential_authority-settle :
    (q : Request) (h : Hub)
    → credential_authority q.identity (settle q h) q.admin
      ≡ credential_authority q.identity h q.admin
unfolding credential_authority is_master smaster_name
credential_authority-settle q h =
    ap (λ (x : Hub). credential_authority q.identity x q.admin) (settle_sessions q h)

-- What an authority stands for.
pub record Backed (q : Request) (h : Hub) (a : RequestAuthority) : Type 0 where
  pub role : (r : BuildingRole) → a.building_role ≡ some r → HasRole q h r
  pub principal :
      (id : String)
      → a.principal_id ≡ some id
      → (p : PrincipalIdentity) × Recorded q h p
        × (p.id ≡ id)
        × (a.display_name ≡ some p.display_name)

abbrev of_principal : PrincipalIdentity → RequestAuthority
of_principal p = record {
  principal_id = some p.id;
  display_name = some p.display_name;
  kind = some p.kind;
  building_role = some p.role;
}

Recorded-Backed :
    (q : Request) (h : Hub) (p : PrincipalIdentity) → Recorded q h p → Backed q h (of_principal p)
Recorded-Backed q h p known = record {
  role = λ r e. subst (HasRole q h) (ground (arith, e)) (HasRole.recorded p known);
  principal = λ id e. (p, known, ground (arith, e), refl);
}

nobody-Backed : (q : Request) (h : Hub) → Backed q h nobody
nobody-Backed q h = record { role = λ r e. cc; principal = λ id e. cc }

unrecorded-Backed :
    (q : Request) (h : Hub) (name : String) (role : BuildingRole)
    → HasRole q h role
    → Backed q h (unrecorded name role)
unrecorded-Backed q h name role has = record {
  role = λ r e. subst (HasRole q h) (ground (arith, e)) has;
  principal = λ id e. cc;
}

session_authority-Backed :
    (q : Request) (h : Hub) (x : SessionIdentity)
    → LiveSession q h x
    → Backed q h (session_authority q.identity x)
unfolding session_authority authority_from_principal
session_authority-Backed q h x live = elim (Option-cases x.principal_id) [
  | inl none_there ↦ rw none_there (record {
    role = λ r e. subst (HasRole q h) (ground (arith, e)) (HasRole.session x live none_there);
    principal = λ id e. cc;
  })
  | inr (id, is) ↦ elim (Option-cases (q.identity.active_principal id)) [
    | inl gone ↦ rw (is, gone) (nobody-Backed q h)
    | inr (p, known) ↦
        rw (is, known) (Recorded-Backed q h p (Recorded.by_session x id live is known))
  ]
]

blank-Backed :
    (q : Request) (h : Hub) (a : Option String)
    → NoSession q h
    → (q.admin ≡ none) ⊎ (q.admin ≡ some "")
    → (unwrap_or "" a == "") ≡ true
    → Backed q h (credential_authority q.identity h a)
unfolding credential_authority
blank-Backed q h a alone shown blank = elim (Bool-cases (h.admin_token == "")) [
  | inr guarded ↦ rw (blank, guarded) (nobody-Backed q h)
  | inl unguarded ↦
      rw (blank, unguarded)
        (unrecorded-Backed q h "operator" BuildingRole.master
          (HasRole.unguarded alone shown ((string_eq.equals_iff h.admin_token "").0 unguarded)))
]

smaster_name-filed :
    (h : Hub) (t name : String)
    → smaster_name h (some t) ≡ some name
    → Dict.lookup t h.smasters ≡ some name
unfolding smaster_name
smaster_name-filed h t name e = ground arith

key-Backed :
    (q : Request) (h : Hub) (t : String)
    → NoSession q h
    → q.admin ≡ some t
    → (t == "") ≡ false
    → Backed q h (credential_authority q.identity h (some t))
unfolding credential_authority authority_from_principal is_master
key-Backed q h t alone shown given =
    let filled : t ≢ "" = λ e. ground (arith, given, string_eq.equals_iff t "") in
    elim (Option-cases (q.identity.principal_for_credential t)) [
      | inr (p, known) ↦
          rw (given, known)
            (Recorded-Backed q h p (Recorded.by_credential t alone shown filled known))
      | inl unknown ↦ elim (Bool-cases (h.admin_token == "" || some t == some h.admin_token)) [
        | inl master ↦
            rw (given, unknown, master)
              (unrecorded-Backed q h "operator" BuildingRole.master (
                HasRole.admin_key t alone shown filled unknown
                  (elim (Bool-cases (h.admin_token == "")) [
                    | inl open_to_all ↦ inl ((string_eq.equals_iff h.admin_token "").0 open_to_all)
                    | inr keyed ↦
                        inr (ground (arith, keyed, master, string_eq.equals_iff t h.admin_token))
                  ])))
        | inr other ↦ elim (Option-cases (smaster_name h (some t))) [
          | inl nothing ↦ rw (given, unknown, other, nothing) (nobody-Backed q h)
          | inr (name, second) ↦
              rw (given, unknown, other, second)
                (unrecorded-Backed q h name BuildingRole.smaster (
                  HasRole.second_key t name alone shown filled unknown
                    (smaster_name-filed h t name second)))
        ]
      ]
    ]

credential_authority-Backed :
    (q : Request) (h : Hub) (a : Option String)
    → NoSession q h
    → q.admin ≡ a
    → Backed q h (credential_authority q.identity h a)
credential_authority-Backed q h none alone shown = blank-Backed q h none alone (inl shown) refl
credential_authority-Backed q h (some t) alone shown = elim (Bool-cases (t == "")) [
  | inl blank ↦
      blank-Backed q h (some t) alone (inr (shown ∙ ap some ((string_eq.equals_iff t "").0 blank)))
        blank
  | inr given ↦ key-Backed q h t alone shown given
]

-- Whatever authority a request resolves to, it has the rank and is the principal that it says.
pub authority_of-Backed : (q : Request) (h : Hub) → Backed q h (authority_of q h).1
authority_of-Backed q h =
    let is = ap (λ (r : Hub × RequestAuthority). r.1) (authority_of_lem q h) in
    elim (Option-cases (session_at q h).1) [
      | inr (x, found) ↦
          subst (Backed q h) (sym (is ∙ ap (λ f. (authority_from q (settle q h, f)).1) found))
            (session_authority-Backed q h x (session_at-some q h x found))
      | inl none_found ↦
          subst (Backed q h)
            (sym (
              is
              ∙ ap (λ f. (authority_from q (settle q h, f)).1) none_found
              ∙ credential_authority-settle q h))
            (credential_authority-Backed q h q.admin (session_at-none q h none_found) refl)
    ]

-- Whom the check of a building admin lets pass, governs.
pub is_admin_req-Governs : (q : Request) (h : Hub) → (is_admin_req q h).1 ≡ true → Governs q h
unfolding is_admin_req is_building_admin
is_admin_req-Governs q h e =
    let b = authority_of-Backed q h in
    elim (Bool-cases ((authority_of q h).1.building_role == some BuildingRole.master)) [
      | inl master ↦
          inl (b.role BuildingRole.master ((option_beq_iff _ (some BuildingRole.master)).0 master))
      | inr other ↦ inr (
          b.role BuildingRole.smaster
            ((option_beq_iff _ (some BuildingRole.smaster)).0 (ground (arith, e, other))))
    ]

-- Whom the check of the master lets pass, is the master.
pub is_master_req-HasRole :
    (q : Request) (h : Hub) → (is_master_req q h).1 ≡ true → HasRole q h BuildingRole.master
unfolding is_master_req is_master_authority
is_master_req-HasRole q h e =
    (authority_of-Backed q h).role BuildingRole.master
      ((option_beq_iff _ (some BuildingRole.master)).0 e)
