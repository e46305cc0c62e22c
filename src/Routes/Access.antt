-- ===== src/Routes/Access.antt =====
-- Who a request comes from, and what it may do (crates/server/src/routes/access.rs, routes/rooms.rs, and
-- `is_loca_operator` of crates/server/src/hub.rs). A look at a session may drop it, so that each of these
-- gives a hub back. The texts of the refusals are left out.
pub mod Settled
pub mod Safety
pub mod Steps
pub mod Authority
pub mod Rank
use loca.Base.{
  ℕ, String, Bool, true, false, not, ◌&&◌, ◌||◌, Option, none, some, ◌==◌, string_eq, option_eq,
  if◌then◌else◌, unwrap_or, is_some, map_option, or_else, contains, starts_with, Result, ok, err,
  Answer, failed, got,
}
use loca.Base.Dict
use loca.Protocol.Chat.{SenderType}
use loca.Hub.State.{Hub, SessionIdentity, is_deleted, is_writable, room_exists}
use loca.Hub.Invites.{admin_open, invite_by_token}
use loca.Hub.Door.{
  IdentityStore, RequestAuthority, EnterDecision, is_building_admin, is_master_authority, is_master,
  smaster_name, is_member, member_for_credential, enter_decision,
}
use loca.Hub.Door.Sessions.{session_identity, resolve_authority}
use loca.Routes.Handler.{Status, Handler, guard, call, unwrap, ◌>>=◌, ◌>>◌}

-- The headers of a request, and what the hub reads beside its state: the store, the policy on sessions
-- and the clock; `trim` is `str::trim`. `has_session` says that the session header is there, readable or not.
pub record Request : Type 0 where
  pub admin : Option String
  pub session : Option String
  pub room : Option String
  pub has_session : Bool
  pub identity : IdentityStore
  pub require_sessions : Bool
  pub now : ℕ
  pub trim : String → String

unfoldable pub authority_of : Request → Hub → Hub × RequestAuthority
unfolding resolve_authority
authority_of q h = resolve_authority q.identity q.now h q.admin q.session

unfoldable pub session_at : Request → Hub → Hub × Option SessionIdentity
unfolding session_identity
session_at q h = session_identity q.identity q.now h q.session

unfoldable pub mutation_actor :
    Request → Hub → String → SenderType → Hub × Result (String × SenderType) Status
unfolding session_at
mutation_actor q h claimed kind =
    let (h', found) = session_at q h in
    elim found [
      | some x ↦ (h', ok (x.name, x.kind))
      | none ↦
          if q.has_session || q.require_sessions
          then (h', err Status.unauthorized)
          else (h', ok (claimed, kind))
    ]

unfoldable pub is_admin_req : Request → Hub → Hub × Bool
unfolding authority_of is_building_admin
is_admin_req q h = let (h', authority) = authority_of q h in (h', is_building_admin authority)

unfoldable pub is_master_req : Request → Hub → Hub × Bool
unfolding authority_of is_master_authority
is_master_req q h = let (h', authority) = authority_of q h in (h', is_master_authority authority)

unfoldable pub member_token_of : Request → Option String
member_token_of q = or_else q.room q.admin

unfoldable pub room_decision_of : Request → Hub → String → Hub × EnterDecision
unfolding session_at member_token_of enter_decision
room_decision_of q h room =
    let (h', session) = session_at q h in
    (h', enter_decision q.identity h' room q.admin (member_token_of q) session none)

unfoldable pub answer_of : EnterDecision → String → Result String Status
answer_of EnterDecision.allowed room = ok room
answer_of EnterDecision.banned room = err Status.forbidden
answer_of EnterDecision.denied room = err Status.unauthorized

-- `RoomAccess::from_request_parts`, where the path names the room.
unfoldable pub room_access : Request → Hub → String → Hub × Result String Status
unfolding is_deleted room_decision_of answer_of
room_access q h room =
    if is_deleted h room
    then (h, err Status.not_found)
    else let (h', decision) = room_decision_of q h room in (h', answer_of decision room)

-- A room's list of operators stands in for appointments where the store does not persist.
unfoldable pub listed_operator : Hub → String → String → Bool
listed_operator h room name = elim (Dict.lookup room h.rooms) [
  | none ↦ false
  | some r ↦ contains name r.settings.operators
]

unfoldable pub appointed_or_listed : Request → Hub → RequestAuthority → String → String → Bool
unfolding listed_operator
appointed_or_listed q h authority room name = elim authority.principal_id [
  | none ↦ if q.identity.is_persistent then false else listed_operator h room name
  | some id ↦ elim (q.identity.loca_operator room) [
    | some appointed ↦ appointed == id
    | none ↦ if q.identity.is_persistent then false else listed_operator h room name
  ]
]

unfoldable pub is_loca_operator : Request → Hub → String → String → Hub × Bool
unfolding authority_of is_building_admin appointed_or_listed
is_loca_operator q h room name =
    let (h', authority) = authority_of q h in
    if is_building_admin authority
    then (h', true)
    else if h'.admin_token == ""
    then (h', true)
    else (h', appointed_or_listed q h' authority room name)

unfoldable pub is_room_operator_req : Request → Hub → String → Hub × Bool
unfolding is_admin_req session_at is_loca_operator
is_room_operator_req q h room =
    let (h₁, admin) = is_admin_req q h in
    let (h₂, session) = session_at q h₁ in
    let name = unwrap_or "" (map_option (λ (x : SessionIdentity). x.name) session) in
    if admin
    then (h₁, true)
    else if name == ""
    then (h₂, false)
    else is_loca_operator q h₂ room name

-- Who a request acts as: its session where there must be one, else a recorded principal, the session,
-- or the claim.
unfoldable pub actor_of : Request → Hub → String → Hub × Result String Status
unfolding session_at authority_of is_master
actor_of q h claimed =
    let (h₁, session) = session_at q h in
    let (h₂, authority) = authority_of q h₁ in
    let legacy_root = is_some q.admin && is_master h₂ q.admin in
    let name = map_option (λ (x : SessionIdentity). x.name) session in
    if q.require_sessions
    then elim name [ none ↦ (h₁, err Status.unauthorized) | some n ↦ (h₁, ok n) ]
    else if not legacy_root && is_some authority.principal_id && is_some authority.display_name
    then (h₂, ok (unwrap_or "" authority.display_name))
    else elim name [
      | some n ↦ (h₂, ok n)
      | none ↦ if is_some q.session then (h₂, err Status.unauthorized) else (h₂, ok claimed)
    ]

unfoldable pub is_public_path : String → Bool
is_public_path path =
    path == "/"
    || starts_with path "/assets/"
    || path == "/PRINCIPLES.md"
    || path == "/PRINCIPLES.en.md"
    || path == "/docs/getting-started.md"
    || path == "/health"
    || path == "/downloads/skills"
    || starts_with path "/downloads/skills/"
    || path == "/sessions"
    || path == "/membership/claim"
    || starts_with path "/join-requests"
    || starts_with path "/ws"
    || starts_with path "/lobby/ws"

-- Some membership of the building, whatever room is asked for.
unfoldable pub has_membership : Request → Hub → Bool → Option String → Bool
unfolding member_token_of is_member member_for_credential invite_by_token smaster_name
has_membership q h has_session principal =
    let token = member_token_of q in
    is_some (member_for_credential q.identity h token)
    || is_member h token
    || has_session
    || (elim token [
      | none ↦ false
      | some t ↦ is_some (invite_by_token q.identity.member_suspended h t)
    ])
    || is_some principal
    || is_some (smaster_name h q.admin)

-- `require_membership` lets a request on to its handler, with nothing to say, or refuses it. `id` is the
-- room of the path, if the path could be read.
unfoldable pub missing_room : Hub → String → Answer (Option String) → Option Status
unfolding admin_open room_exists is_deleted
missing_room h path id =
    if not (admin_open h) && starts_with path "/rooms/"
    then elim id [
      | failed ↦ some Status.bad_request
      | got params ↦ elim params [
        | none ↦ none
        | some room ↦
            if not (room_exists h room) && not (is_deleted h room)
            then some Status.not_found
            else none
      ]
    ]
    else none

unfoldable pub is_revoked_header : Request → Bool
is_revoked_header q = elim q.room [ none ↦ false | some t ↦ q.identity.credential_is_revoked t ]

unfoldable pub require_membership :
    Request → Hub → String → Answer (Option String) → Hub × Option Status
unfolding is_public_path authority_of is_building_admin is_revoked_header session_at has_membership
    missing_room
require_membership q h path id =
    let (h₁, supplied) = authority_of q h in
    let (h₂, session) = session_at q h₁ in
    let (h₃, authority) = authority_of q h₂ in
    if is_public_path path
    then (h, none)
    else if is_some q.admin
        && not (is_some supplied.principal_id)
        && not (is_building_admin supplied)
    then (h₁, some Status.unauthorized)
    else if is_revoked_header q
    then (h₁, some Status.unauthorized)
    else if has_membership q h₃ (is_some session) authority.principal_id
    then (h₃, missing_room h₃ path id)
    else (h₃, some Status.unauthorized)

-- `RoomAccess`, as the first step of a handler.
unfoldable pub enter : Request → String → Handler String
unfolding room_access
enter q room = do answer ← call (λ h. room_access q h room); unwrap answer

unfoldable pub writable : String → Handler (Unit {0})
unfolding is_writable
writable room = do free ← call (λ h. (h, is_writable h room)); guard free Status.conflict

unfoldable pub actor : Request → String → Handler String
unfolding actor_of
actor q claimed = do answer ← call (λ h. actor_of q h claimed); unwrap answer

-- An admin, or an operator of the room.
unfoldable pub is_operator_req : Request → Hub → String → String → Hub × Bool
unfolding is_admin_req is_loca_operator
is_operator_req q h room by =
    let (h', admin) = is_admin_req q h in
    if admin then (h', true) else is_loca_operator q h' room by

unfoldable pub operator : Request → String → String → Handler Bool
unfolding is_operator_req
operator q room by = call (λ h. is_operator_req q h room by)
