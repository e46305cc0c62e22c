-- ===== src/Hub/Door/Sessions.antt =====
-- Session tokens: minting, resolving and revoking them (crates/server/src/hub.rs).
use loca.Base.{
  ℕ, String, Bool, false, not, ◌&&◌, ◌||◌, Option, none, some, [], ◌∷◌, ◌==◌, string_eq, nat_eq,
  option_eq, if◌then◌else◌, unwrap_or, is_some, map_option, leb, format, show, sat_add, wrap_suc,
  Answer, failed, got,
}
use loca.Base.Dict
use loca.Base.Dict.{Dict}
use loca.Protocol.Chat.{SenderType}
use loca.Protocol.Access.{Invite, Membership, CreateSession, SessionInfo}
use loca.Hub.State.{Hub, BuildingRole, SessionIdentity}
use loca.Hub.Invites.{member_of}
use loca.Hub.Door.{
  IdentityStore, PrincipalIdentity, RequestAuthority, is_building_admin, credential_authority,
  session_authority,
}

abbrev pub drop_session : String → Hub → Hub
drop_session token h = record h { sessions = Dict.remove token h.sessions }

-- The session's principal has lost it, in a store that knows.
unfoldable pub is_revoked_session : IdentityStore → ℕ → String → SessionIdentity → Bool
is_revoked_session s now token x =
    is_some x.principal_id && s.is_persistent && not (s.principal_session_active token now)

unfoldable pub is_expired : ℕ → SessionIdentity → Bool
is_expired now x = not (x.expires_at == 0) && leb x.expires_at now

-- A stale token is dropped, and resolves to nothing.
unfoldable pub session_identity :
    IdentityStore → ℕ → Hub → Option String → Hub × Option SessionIdentity
unfolding is_revoked_session is_expired
session_identity s now h none = (h, none)
session_identity s now h (some token) = elim (Dict.lookup token h.sessions) [
  | none ↦ (h, none)
  | some x ↦
      if is_revoked_session s now token x || is_expired now x
      then (drop_session token h, none)
      else (h, some x)
]

unfoldable pub resolve_authority :
    IdentityStore → ℕ → Hub → Option String → Option String → Hub × RequestAuthority
unfolding session_identity session_authority credential_authority
resolve_authority s now h admin_token session_token =
    let (h', found) = session_identity s now h session_token in
    elim found [
      | some x ↦ (h', session_authority s x)
      | none ↦ (h', credential_authority s h' admin_token)
    ]

pub record AdminSessionGrant : Type 0 where
  pub ttl_ms : ℕ
  pub authority : RequestAuthority
  pub credential_id : Option String

-- The id of the credential behind a secret.
unfoldable pub admin_session_grant :
    IdentityStore → (String → Option String) → Hub → Option String → ℕ → Option AdminSessionGrant
unfolding credential_authority is_building_admin
admin_session_grant s credential_id_for_secret h credential ttl_ms =
    let authority = credential_authority s h credential in
    if is_some authority.principal_id || is_building_admin authority
    then some (record {
      ttl_ms = ttl_ms;
      authority = authority;
      credential_id = elim credential [
        | none ↦ none
        | some secret ↦ credential_id_for_secret secret
      ];
    })
    else none

-- `kind` of a membership is text.
unfoldable pub kind_of : String → SenderType
kind_of kind = if kind == "user" then SenderType.user else SenderType.agent

-- The session of a davet is the member's, in the davet's room, and of no authority.
unfoldable pub davet_session : IdentityStore → Hub → Invite → SessionIdentity
unfolding member_of kind_of
davet_session s h i =
    let known = member_of s.member_suspended h i.member in
    record {
      principal_id =
          map_option (λ (p : PrincipalIdentity). p.id) (s.principal_for_credential i.member);
      building_role = BuildingRole.member;
      name = unwrap_or i.name (map_option (λ (m : Membership). m.name) known);
      kind = kind_of (unwrap_or i.kind (map_option (λ (m : Membership). m.kind) known));
      loca = some i.room;
      member = some i.member;
      admin = false;
      expires_at = 0;
    }

-- The session of the building's key, or of a principal's credential.
unfoldable pub building_session : ℕ → CreateSession → Option AdminSessionGrant → SessionIdentity
building_session now req none = record {
  principal_id = none;
  building_role = BuildingRole.member;
  name = req.name;
  kind = unwrap_or SenderType.agent req.kind;
  loca = none;
  member = none;
  admin = false;
  expires_at = 0;
}
building_session now req (some grant) = record {
  principal_id = grant.authority.principal_id;
  building_role = unwrap_or BuildingRole.member grant.authority.building_role;
  name = unwrap_or req.name grant.authority.display_name;
  kind = unwrap_or (unwrap_or SenderType.agent req.kind) grant.authority.kind;
  loca = none;
  member = none;
  admin = is_building_admin grant.authority;
  expires_at = sat_add now grant.ttl_ms;
}

unfoldable pub new_session :
    IdentityStore
    → ℕ
    → Hub
    → CreateSession
    → Option Invite
    → Option AdminSessionGrant
    → SessionIdentity
unfolding davet_session building_session
new_session s now h req none grant = building_session now req grant
new_session s now h req (some i) grant = davet_session s h i

-- `token` is the new bearer, drawn at random. `saved` says whether the store kept the rows of an
-- admin's or a principal's session. The id is spent although the store may fail.
unfoldable pub create_session_scoped :
    IdentityStore
    → ℕ
    → Hub
    → CreateSession
    → Option Invite
    → Option AdminSessionGrant
    → String
    → Bool
    → Hub × Answer SessionInfo
unfolding new_session
create_session_scoped s now h req davet grant token saved =
    let x = new_session s now h req davet grant in
    let h' = record h { next_id = wrap_suc h.next_id } in
    if saved
    then (
      record h' { sessions = Dict.insert token x h'.sessions },
      got (record {
        participant_id = format ("p_" ∷ show h.next_id ∷ []);
        session_token = token;
        name = x.name;
        admin = x.admin;
        expires_at = if x.expires_at == 0 then none else some x.expires_at;
      }),
    )
    else (h', failed)

-- `saved` says whether the store took the session's rows back.
unfoldable pub revoke_session : Hub → String → Bool → Hub × Answer Bool
revoke_session h token saved =
    if saved then (drop_session token h, got (Dict.contains_key token h.sessions)) else (h, failed)

unfoldable pub revoke_sessions_for_member : String → Hub → Hub
revoke_sessions_for_member member h = record h {
  sessions = Dict.retain (λ token (x : SessionIdentity). not (x.member == some member)) h.sessions;
}
