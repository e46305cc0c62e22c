-- ===== src/Routes/Access/Rank.antt =====
-- Who a caller is and what rank they have, as relations on what the caller shows, what the hub holds and what the
-- store knows (crates/server/src/routes/access.rs, `resolve_authority` of crates/server/src/hub.rs).
pub mod Sound
pub mod Operating
pub mod Acting
use loca.Base.{
  ◌≡◌, ◌≢◌, ◌<◌, ◌⊎◌, ℕ, String, Bool, true, false, Option, none, some, string_eq, contains,
}
use loca.Base.Dict
use loca.Hub.State.{Hub, Room, BuildingRole, SessionIdentity}
use loca.Hub.Door.{PrincipalIdentity}
use loca.Routes.Access.{Request}

-- The session that the caller shows, where it holds: it is not over, and the store, if it persists, has not ended
-- it for its principal.
pub record LiveSession (q : Request) (h : Hub) (x : SessionIdentity) : Type 0 where
  pub token : String
  pub shown : q.session ≡ some token
  pub filed : Dict.lookup token h.sessions ≡ some x
  pub not_over : (x.expires_at ≡ 0) ⊎ (q.now < x.expires_at)
  pub not_ended :
      (x.principal_id ≡ none)
      ⊎ ((q.identity.is_persistent ≡ false)
          ⊎ (q.identity.principal_session_active token q.now ≡ true))

abbrev pub NoSession : Request → Hub → Type 0
NoSession q h = (x : SessionIdentity) → ¬ LiveSession q h x

-- The caller is a principal of the store: by a session, or without one by a credential.
pub data Recorded (q : Request) (h : Hub) (p : PrincipalIdentity) : Type 0 where
  by_session :
      (x : SessionIdentity) (id : String)
      → LiveSession q h x
      → x.principal_id ≡ some id
      → q.identity.active_principal id ≡ some p
      → Recorded q h p
  by_credential :
      (t : String)
      → NoSession q h
      → q.admin ≡ some t
      → t ≢ ""
      → q.identity.principal_for_credential t ≡ some p
      → Recorded q h p

-- The role that the caller has in the building.
pub data HasRole (q : Request) (h : Hub) : BuildingRole → Type 0 where
  recorded : (p : PrincipalIdentity) → Recorded q h p → HasRole q h p.role
  session :
      (x : SessionIdentity)
      → LiveSession q h x
      → x.principal_id ≡ none
      → HasRole q h x.building_role
  unguarded :
      NoSession q h
      → (q.admin ≡ none) ⊎ (q.admin ≡ some "")
      → h.admin_token ≡ ""
      → HasRole q h BuildingRole.master
  admin_key :
      (t : String)
      → NoSession q h
      → q.admin ≡ some t
      → t ≢ ""
      → q.identity.principal_for_credential t ≡ none
      → (h.admin_token ≡ "") ⊎ (t ≡ h.admin_token)
      → HasRole q h BuildingRole.master
  second_key :
      (t name : String)
      → NoSession q h
      → q.admin ≡ some t
      → t ≢ ""
      → q.identity.principal_for_credential t ≡ none
      → Dict.lookup t h.smasters ≡ some name
      → HasRole q h BuildingRole.smaster

-- The master, or a second master.
abbrev pub Governs : Request → Hub → Type 0
Governs q h = HasRole q h BuildingRole.master ⊎ HasRole q h BuildingRole.smaster

-- Who may act as an operator of the room under the name.
pub data Operates (q : Request) (h : Hub) (room name : String) : Type 0 where
  governs : Governs q h → Operates q h room name
  unguarded : h.admin_token ≡ "" → Operates q h room name
  appointed :
      (p : PrincipalIdentity)
      → Recorded q h p
      → q.identity.loca_operator room ≡ some p.id
      → Operates q h room name
  listed :
      (r : Room)
      → q.identity.is_persistent ≡ false
      → Dict.lookup room h.rooms ≡ some r
      → contains name r.settings.operators ≡ true
      → Operates q h room name

-- Who may run the room: an operator by a session's name.
pub data Runs (q : Request) (h : Hub) (room : String) : Type 0 where
  governs : Governs q h → Runs q h room
  operator :
      (x : SessionIdentity)
      → LiveSession q h x
      → x.name ≢ ""
      → Operates q h room x.name
      → Runs q h room

-- The name that the caller acts under. A mere claim counts only where no session is asked for or shown.
pub data ActsAs (q : Request) (h : Hub) (claimed : String) : String → Type 0 where
  session : (x : SessionIdentity) → LiveSession q h x → ActsAs q h claimed x.name
  recorded :
      (p : PrincipalIdentity)
      → q.require_sessions ≡ false
      → Recorded q h p
      → ActsAs q h claimed p.display_name
  claim : q.require_sessions ≡ false → q.session ≡ none → ActsAs q h claimed claimed
