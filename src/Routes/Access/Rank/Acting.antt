-- ===== src/Routes/Access/Rank/Acting.antt =====
-- The name that a caller acts under (actor_of of crates/server/src/routes/rooms.rs).
use loca.Base.{
  ◌≡◌, ◌≢◌, ◌⊎◌, sym, subst, inl, inr, String, Bool, true, false, not, ◌&&◌, none, some, string_eq,
  nat_eq, option_eq, arith, is_some, unwrap_or, ok, Option-cases, Bool-cases,
}
use loca.Hub.State.{Hub, SessionIdentity}
use loca.Hub.Door.{RequestAuthority, building_role_eq, is_master}
use loca.Routes.Access.{Request, session_at, authority_of, actor_of}
use loca.Routes.Access.Settled.{settle, authority_of-settle}
use loca.Routes.Access.Rank.{ActsAs}
use loca.Routes.Access.Rank.Sound.{Backed, authority_of-Backed, session_at-some}
use loca.Routes.Access.Rank.Operating.{has_principal, named}

abbrev is_named_principal : Request → Hub → RequestAuthority → Bool
is_named_principal q h a =
    not (is_some q.admin && is_master h q.admin) && is_some a.principal_id && is_some a.display_name

principal_named :
    (q : Request) (h : Hub) (claimed by : String)
    → q.require_sessions ≡ false
    → is_named_principal q
        (authority_of q (session_at q h).0).0
        (authority_of q (session_at q h).0).1
      ≡ true
    → (actor_of q h claimed).1 ≡ ok by
    → by ≡ unwrap_or "" (authority_of q (session_at q h).0).1.display_name
unfolding actor_of
principal_named q h claimed by loose named e = ground (arith, e, loose, named)

unprincipled :
    (q : Request) (h : Hub) (claimed by : String)
    → q.require_sessions ≡ false
    → is_named_principal q
        (authority_of q (session_at q h).0).0
        (authority_of q (session_at q h).0).1
      ≡ false
    → (session_at q h).1 ≡ none
    → (actor_of q h claimed).1 ≡ ok by
    → (q.session ≡ none) × (by ≡ claimed)
unfolding actor_of
unprincipled q h claimed by loose unnamed none_found e = elim (Option-cases q.session) [
  | inl nothing ↦ (nothing, ground (arith, e, loose, unnamed, none_found, nothing))
  | inr (t, shown) ↦ ground (arith, e, loose, unnamed, none_found, shown)
]

by_session :
    (q : Request) (h : Hub) (claimed by : String) (x : SessionIdentity)
    → (q.require_sessions ≡ true)
      ⊎ (is_named_principal q
            (authority_of q (session_at q h).0).0
            (authority_of q (session_at q h).0).1
          ≡ false)
    → (session_at q h).1 ≡ some x
    → (actor_of q h claimed).1 ≡ ok by
    → x.name ≡ by
unfolding actor_of
by_session q h claimed by x why found e = elim (Bool-cases q.require_sessions) [
  | inl strict ↦ ground (arith, e, strict, found)
  | inr loose ↦ ground (arith, e, loose, why, found)
]

no_session_no_name :
    (q : Request) (h : Hub) (claimed by : String)
    → q.require_sessions ≡ true
    → (session_at q h).1 ≡ none
    → (actor_of q h claimed).1 ≢ ok by
unfolding actor_of
no_session_no_name q h claimed by strict none_found e = ground (arith, e, strict, none_found)

recorded-ActsAs :
    (q : Request) (h : Hub) (claimed by : String) (a : RequestAuthority)
    → q.require_sessions ≡ false
    → Backed q h a
    → is_some a.principal_id ≡ true
    → by ≡ unwrap_or "" a.display_name
    → ActsAs q h claimed by
recorded-ActsAs q h claimed by a loose b given is = elim (Option-cases a.principal_id) [
  | inl missing ↦ ground (arith, given, missing)
  | inr (id, there) ↦
      let (p, known, same, shown) = b.principal id there in
      subst (ActsAs q h claimed) (ground (arith, is, shown)) (ActsAs.recorded p loose known)
]

-- The name that a request resolves to is one that the caller acts under.
pub actor_of-ActsAs :
    (q : Request) (h : Hub) (claimed by : String)
    → (actor_of q h claimed).1 ≡ ok by
    → ActsAs q h claimed by
actor_of-ActsAs q h claimed by e =
    let s = settle q h in
    elim (Bool-cases q.require_sessions) [
      | inl strict ↦ elim (Option-cases (session_at q h).1) [
        | inl none_found ↦ elim (no_session_no_name q h claimed by strict none_found e) [ ]
        | inr (x, found) ↦
            subst (ActsAs q h claimed) (by_session q h claimed by x (inl strict) found e)
              (ActsAs.session x (session_at-some q h x found))
      ]
      | inr loose ↦
          elim (Bool-cases (is_named_principal q (authority_of q s).0 (authority_of q s).1)) [
            | inl principal ↦
                let b =
                  subst (λ (r : Hub × RequestAuthority). Backed q h r.1)
                    (sym (authority_of-settle q h)) (authority_of-Backed q h) in
                recorded-ActsAs q h claimed by (authority_of q s).1 loose b
                  (has_principal (is_master (authority_of q s).0 q.admin) q (authority_of q s).1
                    principal)
                  (principal_named q h claimed by loose principal e)
            | inr unnamed ↦ elim (Option-cases (session_at q h).1) [
              | inr (x, found) ↦
                  subst (ActsAs q h claimed) (by_session q h claimed by x (inr unnamed) found e)
                    (ActsAs.session x (session_at-some q h x found))
              | inl none_found ↦
                  let (nothing, is) = unprincipled q h claimed by loose unnamed none_found e in
                  subst (ActsAs q h claimed) (sym is) (ActsAs.claim loose nothing)
            ]
          ]
    ]
