-- ===== src/Routes/Rooms/Running.antt =====
-- Who may run a room (crates/server/src/routes/rooms.rs).
use loca.Base.{
  ◌≡◌, ◌≢◌, ◌<◌, ◌⊎◌, ℕ, none, some, is_some, contains, refl, sym, ap, ◌∙◌, String, Bool, true,
  false, not, ◌&&◌, ◌==◌, string_eq, arith, Option, unwrap_or, map_option, Answer, failed, got,
  Bool-cases, inl, inr,
}
use loca.Base.Dict
use loca.Routes.Access.Rank.{Runs, Governs, HasRole}
use loca.Routes.Access.Rank.Sound.{is_admin_req-Governs, is_master_req-HasRole}
use loca.Routes.Access.Rank.Operating.{is_room_operator_req-Runs}
use loca.Protocol.Chat.{ChatMode}
use loca.Protocol.Settings.{ReminderRecipient, RoomSettings, SetSettings}
use loca.Protocol.Access.{ModAction}
use loca.Hub.State.{Hub, Room, BuildingRole, SessionIdentity, is_deleted}
use loca.Hub.Settings
use loca.Hub.Settings.{settings_of}
use loca.Routes.Handler.{Status, Handler, next, refused, guard, reply, ◌>>=◌, ◌>>◌}
use loca.Routes.Access.{Request, session_at, is_admin_req, is_master_req, is_room_operator_req}
use loca.Routes.Access.Settled.{
  settle, settle_sessions, settle-settle, authority_of_hub, is_admin_req_hub, is_admin_req-settle,
  is_loca_operator_hub,
}
use loca.Routes.Access.Authority.{Goes, Goes-next, passing}
use loca.Routes.Rooms
use loca.Routes.Rooms.{
  run_by_operator, saved_answer, is_governance, is_valid_recipient, lacks_recipient,
  enables_reminder,
}

is_room_operator_req_hub :
    (q : Request) (h : Hub) (room : String) → (is_room_operator_req q h room).0 ≡ settle q h
unfolding is_room_operator_req
is_room_operator_req_hub q h room =
    let looked = ap (settle q) (is_admin_req_hub q h) ∙ settle-settle q h in
    let name =
      unwrap_or ""
        (map_option (λ (x : SessionIdentity). x.name) (session_at q (is_admin_req q h).0).1) in
    elim (Bool-cases (is_admin_req q h).1) [
      | inl admin ↦ rw admin (is_admin_req_hub q h)
      | inr no_admin ↦ elim (Bool-cases (name == "")) [
        | inl unnamed ↦ rw (no_admin, unnamed) looked
        | inr named ↦
            rw (no_admin, named)
              (is_loca_operator_hub q (session_at q (is_admin_req q h).0).0 room name
                ∙ ap (settle q) looked
                ∙ settle-settle q h)
      ]
    ]

is_master_req_hub : (q : Request) (h : Hub) → (is_master_req q h).0 ≡ settle q h
unfolding is_master_req
is_master_req_hub q h = authority_of_hub q h

saved-Goes :
    {A : Type 0} (R : Status × A → Hub → Type 0) (r : Hub × Answer A)
    → ((a : A) → r ≡ (r.0, got a) → R (Status.success, a) r.0)
    → Goes R (saved_answer r.1 r.0)
saved-Goes R (h, got a) made = made a refl
saved-Goes R (h, failed) made = tt

running :
    {B : Type 0} (R : B → Hub → Type 0) (q : Request) (h : Hub) (room : String) (k : Handler B)
    → ((is_room_operator_req q h room).1 ≡ true → Goes R (k (settle q h)))
    → Goes R ((run_by_operator q room >> k) h)
unfolding run_by_operator
running R q h room k rest =
    passing R (is_room_operator_req q h room).1 Status.unauthorized k
      (is_room_operator_req q h room).0 λ runs. rw (is_room_operator_req_hub q h room) (rest runs)

standing_settle :
    (q : Request) (h : Hub) (room : String) → is_deleted (settle q h) room ≡ is_deleted h room
unfolding is_deleted
standing_settle q h room = ap (λ (x : Hub). is_deleted x room) (settle_sessions q h)

settings_settle :
    (q : Request) (h : Hub) (room : String) → settings_of (settle q h) room ≡ settings_of h room
unfolding settings_of
settings_settle q h room = ap (λ (x : Hub). settings_of x room) (settle_sessions q h)

governing :
    (admin : Bool) (body : SetSettings)
    → not (not admin && is_governance body) ≡ true
    → (is_some body.operators ≡ true) ⊎ (is_some body.archived ≡ true)
    → admin ≡ true
unfolding is_governance
governing admin body e (inl g) = ground (arith, g)
governing admin body e (inr g) = ground (arith, g)

-- A reminder of the room is on.
abbrev pub Reminds : RoomSettings → Type 0
Reminds s =
    (0 < s.care_goal_secs)
    ⊎ ((0 < s.care_task_secs) ⊎ ((0 < s.care_wait_secs) ⊎ (0 < s.care_silence_secs)))

-- The change switches a reminder on, or gives those that are on a recipient.
pub data Enables (s : RoomSettings) (body : SetSettings) : Type 0 where
  on_goal : (n : ℕ) → body.care_goal_secs ≡ some n → 0 < n → Enables s body
  on_task : (n : ℕ) → body.care_task_secs ≡ some n → 0 < n → Enables s body
  on_wait : (n : ℕ) → body.care_wait_secs ≡ some n → 0 < n → Enables s body
  on_silence : (n : ℕ) → body.care_silence_secs ≡ some n → 0 < n → Enables s body
  to_other : (who : ReminderRecipient) → body.care_recipient ≡ some who → Reminds s → Enables s body

Enables-enables_reminder :
    (s : RoomSettings) (body : SetSettings) → Enables s body → enables_reminder s body ≡ true
unfolding enables_reminder
Enables-enables_reminder s body (Enables.on_goal n e p) = ground (arith, e)
Enables-enables_reminder s body (Enables.on_task n e p) = ground (arith, e)
Enables-enables_reminder s body (Enables.on_wait n e p) = ground (arith, e)
Enables-enables_reminder s body (Enables.on_silence n e p) = ground (arith, e)
Enables-enables_reminder s body (Enables.to_other who e (inl p)) = ground (arith, e)
Enables-enables_reminder s body (Enables.to_other who e (inr (inl p))) = ground (arith, e)
Enables-enables_reminder s body (Enables.to_other who e (inr (inr (inl p)))) = ground (arith, e)
Enables-enables_reminder s body (Enables.to_other who e (inr (inr (inr p)))) = ground (arith, e)

has_lead :
    (s : RoomSettings) (body : SetSettings)
    → lacks_recipient s body ≡ false
    → Enables s body
    → unwrap_or s.care_recipient body.care_recipient ≡ ReminderRecipient.lead
    → s.lead ≢ none
unfolding lacks_recipient
has_lead s body e on lead nobody =
    let enabled = Enables-enables_reminder s body on in ground (arith, enabled, lead, nobody)

stands_by :
    (h : Hub) (room : String)
    → is_deleted h room ≡ false
    → (room ≡ h.home_room) ⊎ (contains room h.deleted ≡ false)
unfolding is_deleted
stands_by h room e = elim (Bool-cases (room == h.home_room)) [
  | inl home ↦ inl ((string_eq.equals_iff room h.home_room).0 home)
  | inr other ↦ inr (ground (arith, other))
]

settings_by :
    (h : Hub) (room : String)
    → unwrap_or h.default_settings
        (map_option (λ (r : Room). r.settings) (Dict.lookup room h.rooms))
      ≡ settings_of h room
unfolding settings_of
settings_by h room = ground arith

-- Settings that were changed: who may, and how.
pub record SettingsMade (q : Request) (h : Hub) (room : String) (body : SetSettings) (saved : Bool)
    (answer : Status × RoomSettings) (h' : Hub) : Type 0 where
  pub runs : Runs q h room
  pub governs : (is_some body.operators ≡ true) ⊎ (is_some body.archived ≡ true) → Governs q h
  pub standing : (room ≡ h.home_room) ⊎ (contains room h.deleted ≡ false)
  pub recipient :
      (s : RoomSettings)
      → s
        ≡ unwrap_or h.default_settings
            (map_option (λ (r : Room). r.settings) (Dict.lookup room h.rooms))
      → Enables s body
      → unwrap_or s.care_recipient body.care_recipient ≡ ReminderRecipient.lead
      → s.lead ≢ none
  pub made : Settings.set_settings (settle q h) room body q.now saved ≡ (h', got answer.1)

set_settings-Goes :
    (q : Request) (valid_name : String → Bool) (room : String) (body : SetSettings) (saved : Bool)
    (h : Hub)
    → Goes (SettingsMade q h room body saved) (Rooms.set_settings q valid_name room body saved h)
unfolding Rooms.set_settings
set_settings-Goes q valid_name room body saved h =
    let R = SettingsMade q h room body saved in
    let s = settle q h in
    let back : (is_admin_req q s).0 ≡ s = is_admin_req_hub q s ∙ settle-settle q h in
    running R q h room _ λ runs.
      passing R (not (not (is_admin_req q s).1 && is_governance body)) Status.forbidden _
        (is_admin_req q s).0
        λ may. rw (back) (
          passing R (not (is_deleted s room)) Status.conflict _ s λ stands.
            passing R (is_valid_recipient valid_name body.care_recipient) Status.bad_request _ s
              λ valid.
                passing R (not (lacks_recipient (settings_of s room) body)) Status.bad_request _ s
                  λ fits. saved-Goes R (Settings.set_settings s room body q.now saved) λ t e.
                    record {
                      runs = is_room_operator_req-Runs q h room runs;
                      governs = λ g. is_admin_req-Governs q h (
                          sym (ap (λ (r : Hub × Bool). r.1) (is_admin_req-settle q h))
                          ∙ governing (is_admin_req q s).1 body may g);
                      standing =
                          stands_by h room
                            (sym (standing_settle q h room) ∙ ground (arith, stands));
                      recipient = λ now_set same on.
                          has_lead now_set body
                            (ap (λ x. lacks_recipient x body) (same ∙ settings_by h room)
                              ∙ sym (ap (λ x. lacks_recipient x body) (settings_settle q h room))
                              ∙ ground (arith, fits))
                            on;
                      made = e;
                    })

-- A request to change a room's settings that is answered with them came from a caller who, by what the caller
-- shows, the hub holds and the store knows, may run the room: the master or a second master, or an operator of the
-- room under a session's name; the master or a second master where it names operators or sets whether the room is
-- archived. The room is the home room or not sealed. Where the change switches a reminder on, or gives those that
-- are on a recipient, and the lead is then reminded, the room has a lead. The answer is what `set_settings` of the
-- hub made.
pub set_settings-SettingsMade :
    (q : Request) (valid_name : String → Bool) (room : String) (body : SetSettings) (saved : Bool)
    (h h' : Hub) (answer : Status × RoomSettings)
    → Rooms.set_settings q valid_name room body saved h ≡ next answer h'
    → SettingsMade q h room body saved answer h'
set_settings-SettingsMade q valid_name room body saved h h' answer e =
    Goes-next (SettingsMade q h room body saved) _ answer h'
      (set_settings-Goes q valid_name room body saved h) e

-- A request that changes a room.
pub data RoomRequest : Type 0 where
  set_mode : String → ChatMode → Bool → RoomRequest
  set_lead : String → Option String → Bool → RoomRequest
  set_settings : (String → Bool) → String → SetSettings → Bool → RoomRequest
  moderate : String → ModAction → String → Bool → Bool → RoomRequest
  invite : String → String → String → Bool → RoomRequest
  seal : String → Bool → RoomRequest

abbrev status_of : {A : Type 0} → Handler (Status × A) → Handler Status
status_of m = m >>= λ answer. reply answer.0

unfoldable pub serve : Request → RoomRequest → Handler Status
serve q (RoomRequest.set_mode room mode saved) = status_of (Rooms.set_mode q room mode saved)
serve q (RoomRequest.set_lead room lead saved) = status_of (Rooms.set_lead q room lead saved)
serve q (RoomRequest.set_settings valid_name room body saved) =
    status_of (Rooms.set_settings q valid_name room body saved)
serve q (RoomRequest.moderate room action name saved_ban saved_davets) =
    status_of (Rooms.moderate q room action name saved_ban saved_davets)
serve q (RoomRequest.invite room name token saved) =
    status_of (Rooms.create_invite q room name token saved)
serve q (RoomRequest.seal room saved) = Rooms.delete_room q room saved

-- The rank that the request takes: who may run the room changes it, a master or second master issues davets, and
-- the master seals.
unfoldable pub Ranked : Request → Hub → RoomRequest → Type 0
Ranked q h (RoomRequest.set_mode room mode saved) = Runs q h room
Ranked q h (RoomRequest.set_lead room lead saved) = Runs q h room
Ranked q h (RoomRequest.set_settings valid_name room body saved) = Runs q h room
Ranked q h (RoomRequest.moderate room action name saved_ban saved_davets) = Runs q h room
Ranked q h (RoomRequest.invite room name token saved) = Governs q h
Ranked q h (RoomRequest.seal room saved) = HasRole q h BuildingRole.master

denied : {R : Type 0} {b : Bool} → (b ≡ true → R) → ¬ R → b ≡ false
denied {R} {b} sound never = elim (Bool-cases b) [
  | inl holds ↦ elim (never (sound holds)) [ ]
  | inr other ↦ other
]

stopped :
    {B : Type 0} (b : Bool) (k : Handler B) (h h' : Hub)
    → b ≡ false
    → h ≡ h'
    → (guard b Status.unauthorized >> k) h ≡ refused Status.unauthorized h'
stopped true k h h' e f = cc
stopped false k h h' e f = ap (refused Status.unauthorized) f

not_running :
    {B : Type 0} (q : Request) (room : String) (k : Handler B) (h : Hub)
    → ¬ Runs q h room
    → (run_by_operator q room >> k) h ≡ refused Status.unauthorized (settle q h)
unfolding run_by_operator
not_running q room k h never =
    stopped (is_room_operator_req q h room).1 k (is_room_operator_req q h room).0 (settle q h)
      (denied (is_room_operator_req-Runs q h room) never) (is_room_operator_req_hub q h room)

refused_status :
    {A : Type 0} (m : Handler (Status × A)) (s : Status) (h h' : Hub)
    → m h ≡ refused s h'
    → status_of m h ≡ refused s h'
refused_status m s h h' e = rw e refl

-- A request to change a room, by a caller who has not the rank that it takes, by what the caller shows, the hub
-- holds and the store knows, is refused as unauthorized. The mode, the lead, the settings and moderation take one
-- who may run the room, a davet takes a master or second master, and the sealing takes the master. Nothing of the hub
-- changes but that a session of the caller that has ended is dropped, as every look at it does.
pub serve_unranked :
    (q : Request) (w : RoomRequest) (h : Hub)
    → ¬ Ranked q h w
    → serve q w h ≡ refused Status.unauthorized (settle q h)
unfolding Ranked serve Rooms.set_mode Rooms.set_lead Rooms.set_settings Rooms.moderate
    Rooms.create_invite Rooms.delete_room
serve_unranked q (RoomRequest.set_mode room mode saved) h e =
    refused_status (Rooms.set_mode q room mode saved) Status.unauthorized h (settle q h)
      (not_running q room _ h e)
serve_unranked q (RoomRequest.set_lead room lead saved) h e =
    refused_status (Rooms.set_lead q room lead saved) Status.unauthorized h (settle q h)
      (not_running q room _ h e)
serve_unranked q (RoomRequest.set_settings valid_name room body saved) h e =
    refused_status (Rooms.set_settings q valid_name room body saved) Status.unauthorized h
      (settle q h) (not_running q room _ h e)
serve_unranked q (RoomRequest.moderate room action name saved_ban saved_davets) h e =
    refused_status (Rooms.moderate q room action name saved_ban saved_davets) Status.unauthorized h
      (settle q h) (not_running q room _ h e)
serve_unranked q (RoomRequest.invite room name token saved) h e =
    refused_status (Rooms.create_invite q room name token saved) Status.unauthorized h (settle q h)
      (stopped (is_admin_req q h).1 _ (is_admin_req q h).0 (settle q h)
        (denied (is_admin_req-Governs q h) e) (is_admin_req_hub q h))
serve_unranked q (RoomRequest.seal room saved) h e =
    stopped (is_master_req q h).1 _ (is_master_req q h).0 (settle q h)
      (denied (is_master_req-HasRole q h) e) (is_master_req_hub q h)
