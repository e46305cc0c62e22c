-- ===== src/Hub/Door.antt =====
-- The door of a room: who a caller is, and whether they may come in (crates/server/src/hub.rs).
-- What the store knows of principals and credentials is an argument.
pub mod Sessions
pub mod Entry
pub mod Ruling
use loca.Base.{
  ℕ, String, Bool, true, false, not, ◌&&◌, ◌||◌, Option, none, some, List, [], ◌∷◌, ◌==◌, string_eq,
  option_eq, if◌then◌else◌, unwrap_or, is_some, map_option, or_else, format, find, Eq, ◌≡◌, ◌↔◌,
  arith,
}
use loca.Base.Dict
use loca.Base.Dict.{Dict}
use loca.Protocol.Chat.{SenderType}
use loca.Protocol.Access.{Invite, Membership}
use loca.Hub.State.{Hub, Room, BuildingRole, SessionIdentity, is_banned}
use loca.Hub.Invites.{admin_open, member_of, invite_by_token, invite_for}

abbrev pub building_role_beq : BuildingRole → BuildingRole → Bool
building_role_beq BuildingRole.master BuildingRole.master = true
building_role_beq BuildingRole.smaster BuildingRole.smaster = true
building_role_beq BuildingRole.member BuildingRole.member = true
building_role_beq _ _ = false

pub building_role_equals_iff : (a b : BuildingRole) → (building_role_beq a b ≡ true) ↔ (a ≡ b)
building_role_equals_iff a b = ground arith

instance abbrev pub building_role_eq : Eq BuildingRole
building_role_eq = record { equals = building_role_beq; equals_iff = building_role_equals_iff }

pub record PrincipalIdentity : Type 0 where
  pub id : String
  pub display_name : String
  pub kind : SenderType
  pub role : BuildingRole

-- The store's answers about principals, credentials, suspensions and appointments. A failed look at
-- a suspension counts as suspended.
pub record IdentityStore : Type 0 where
  pub is_persistent : Bool
  pub member_suspended : String → Bool
  pub credential_is_revoked : String → Bool
  pub principal_for_credential : String → Option PrincipalIdentity
  pub active_principal : String → Option PrincipalIdentity
  pub principal_id_for_member_record : String → Option String
  pub principal_session_active : String → ℕ → Bool
  pub loca_operator : String → Option String

pub record RequestAuthority : Type 0 where
  pub principal_id : Option String
  pub display_name : Option String
  pub kind : Option SenderType
  pub building_role : Option BuildingRole

unfoldable pub is_building_admin : RequestAuthority → Bool
is_building_admin a =
    a.building_role == some BuildingRole.master || a.building_role == some BuildingRole.smaster

unfoldable pub is_master_authority : RequestAuthority → Bool
is_master_authority a = a.building_role == some BuildingRole.master

unfoldable pub authority_from_principal : Option PrincipalIdentity → Option RequestAuthority
authority_from_principal p =
    map_option
      (λ (identity : PrincipalIdentity). record {
        principal_id = some identity.id;
        display_name = some identity.display_name;
        kind = some identity.kind;
        building_role = some identity.role;
      })
      p

-- No authority at all.
abbrev pub nobody : RequestAuthority
nobody = record { principal_id = none; display_name = none; kind = none; building_role = none }

-- An authority of a role that no principal record backs.
abbrev pub unrecorded : String → BuildingRole → RequestAuthority
unrecorded name role = record {
  principal_id = none;
  display_name = some name;
  kind = some SenderType.user;
  building_role = some role;
}

unfoldable pub is_master : Hub → Option String → Bool
is_master h token = h.admin_token == "" || token == some h.admin_token

unfoldable pub smaster_name : Hub → Option String → Option String
smaster_name h none = none
smaster_name h (some token) = if token == "" then none else Dict.lookup token h.smasters

unfoldable pub is_admin : Hub → Option String → Bool
unfolding is_master smaster_name
is_admin h token = is_master h token || is_some (smaster_name h token)

-- `resolve_authority` from an admin credential, once no live session has answered.
unfoldable pub credential_authority : IdentityStore → Hub → Option String → RequestAuthority
unfolding authority_from_principal is_master smaster_name
credential_authority s h admin_token =
    let given = unwrap_or "" admin_token in
    let recorded = authority_from_principal (s.principal_for_credential given) in
    if given == ""
    then if h.admin_token == "" then unrecorded "operator" BuildingRole.master else nobody
    else elim recorded [
      | some authority ↦ authority
      | none ↦
          if is_master h (some given)
          then unrecorded "operator" BuildingRole.master
          else elim (smaster_name h (some given)) [
            | some name ↦ unrecorded name BuildingRole.smaster
            | none ↦ nobody
          ]
    ]

-- `resolve_authority` from a live session.
unfoldable pub session_authority : IdentityStore → SessionIdentity → RequestAuthority
unfolding authority_from_principal
session_authority s session = elim session.principal_id [
  | some id ↦ unwrap_or nobody (authority_from_principal (s.active_principal id))
  | none ↦ record {
    principal_id = none;
    display_name = some session.name;
    kind = some session.kind;
    building_role = some session.building_role;
  }
]

unfoldable pub is_member : Hub → Option String → Bool
is_member h token =
    let is_admin_token = not (h.admin_token == "") && token == some h.admin_token in
    if h.room_token == ""
    then not h.require_invite || is_admin_token
    else token == some h.room_token || is_admin_token

-- The membership behind a credential: any active credential of the principal finds it.
unfoldable pub member_for_credential : IdentityStore → Hub → Option String → Option Membership
unfolding member_of
member_for_credential s h none = none
member_for_credential s h (some token) =
    if not s.is_persistent
    then member_of s.member_suspended h token
    else elim (s.principal_for_credential token) [
      | none ↦ none
      | some principal ↦
          if not (principal.role == BuildingRole.member)
          then none
          else find
              (λ (m : Membership). s.principal_id_for_member_record m.token == some principal.id)
              (Dict.values h.members)
    ]

unfoldable pub principal_id_for_invite :
    IdentityStore → Hub → String → Option String → Option String
unfolding invite_for
principal_id_for_invite s h room token = elim (invite_for s.member_suspended h room token) [
  | none ↦ none
  | some i ↦ if i.member == "" then none else s.principal_id_for_member_record i.member
]

unfoldable pub may_enter : IdentityStore → Hub → String → Option String → Bool
unfolding is_member member_for_credential invite_for invite_by_token
may_enter s h room token =
    if is_some (invite_for s.member_suspended h room token) then true else elim token [
      | none ↦ is_member h none
      | some t ↦
          if s.credential_is_revoked t then false else elim (member_for_credential s h (some t)) [
            | some m ↦ is_member h (some m.token)
            | none ↦ is_member h (some t)
          ]
    ]

pub data EnterDecision : Type 0 where
  allowed denied banned : EnterDecision

-- The name that a ban is checked against.
unfoldable pub ban_name :
    IdentityStore
    → Hub
    → Option String
    → Option String
    → Option SessionIdentity
    → Option String
    → Option String
unfolding invite_by_token credential_authority
ban_name s h admin_tok davet_tok session name_hint =
    or_else (map_option (λ (x : SessionIdentity). x.name) session) (
      or_else
        (elim davet_tok [
          | none ↦ none
          | some t ↦ map_option (λ (i : Invite). i.name) (invite_by_token s.member_suspended h t)
        ])
        (or_else (credential_authority s h admin_tok).display_name name_hint))

unfoldable pub is_banned_at_door : Hub → String → Option String → Bool
unfolding is_banned
is_banned_at_door h room none = false
is_banned_at_door h room (some name) = is_banned h room name

unfoldable pub session_is_admin : Option SessionIdentity → Bool
session_is_admin none = false
session_is_admin (some x) = x.admin

unfoldable pub principal_at_door : Option SessionIdentity → RequestAuthority → Option String
principal_at_door none authority = authority.principal_id
principal_at_door (some x) authority = or_else x.principal_id authority.principal_id

-- The appointed operator of the room.
unfoldable pub is_operator_at_door : IdentityStore → String → Option String → Bool
is_operator_at_door s room none = false
is_operator_at_door s room (some id) = s.loca_operator room == some id

-- A session opens the room that it was minted for, and without one the building if that has a key.
unfoldable pub session_opens : Hub → String → Option SessionIdentity → Bool
session_opens h room none = false
session_opens h room (some x) = elim x.loca [ some l ↦ l == room | none ↦ not (h.room_token == "") ]

unfoldable pub enter_decision :
    IdentityStore
    → Hub
    → String
    → Option String
    → Option String
    → Option SessionIdentity
    → Option String
    → EnterDecision
unfolding is_building_admin credential_authority session_is_admin is_banned_at_door ban_name
    is_operator_at_door principal_at_door may_enter session_opens
enter_decision s h room admin_tok davet_tok session name_hint =
    let authority = credential_authority s h admin_tok in
    if is_building_admin authority && is_some admin_tok
    then EnterDecision.allowed
    else if session_is_admin session
    then EnterDecision.allowed
    else if is_banned_at_door h room (ban_name s h admin_tok davet_tok session name_hint)
    then EnterDecision.banned
    else if is_operator_at_door s room (principal_at_door session authority)
    then EnterDecision.allowed
    else if may_enter s h room davet_tok
    then EnterDecision.allowed
    else if session_opens h room session
    then EnterDecision.allowed
    else EnterDecision.denied

-- The key of a seat: one for each person, whatever name they type.
unfoldable pub session_seat : Option SessionIdentity → Option String → String → String
session_seat none session_tok name = format ("name:" ∷ name ∷ [])
session_seat (some x) session_tok name = if x.admin then "@master" else elim x.member [
  | some m ↦ format ("mb:" ∷ m ∷ [])
  | none ↦ elim session_tok [
    | some t ↦ format ("st:" ∷ t ∷ [])
    | none ↦ format ("name:" ∷ name ∷ [])
  ]
]

unfoldable pub davet_seat :
    IdentityStore → Hub → Option String → Option SessionIdentity → Option String → String → String
unfolding session_seat member_for_credential invite_by_token
davet_seat s h davet_tok session session_tok name =
    elim (elim davet_tok as (λ _. Option Invite) [
      | none ↦ none
      | some t ↦ invite_by_token s.member_suspended h t
    ]) [
      | some i ↦
          if not (i.member == "")
          then format ("mb:" ∷ i.member ∷ [])
          else format ("dv:" ∷ i.token ∷ [])
      | none ↦ elim (member_for_credential s h davet_tok) [
        | some m ↦ format ("mb:" ∷ m.token ∷ [])
        | none ↦ session_seat session session_tok name
      ]
    ]

unfoldable pub seat_identity :
    IdentityStore
    → Hub
    → Option String
    → Option String
    → Option SessionIdentity
    → Option String
    → String
    → String
unfolding davet_seat smaster_name
seat_identity s h none davet_tok session session_tok name =
    davet_seat s h davet_tok session session_tok name
seat_identity s h (some t) davet_tok session session_tok name =
    if is_some (smaster_name h (some t))
    then format ("sm:" ∷ t ∷ [])
    else if not (h.admin_token == "") && t == h.admin_token
    then "@master"
    else davet_seat s h davet_tok session session_tok name
