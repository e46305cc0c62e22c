-- ===== src/Routes/Rooms.antt =====
-- The handlers that run a room: its mode, lead, settings, davets, moderation and sealing
-- (crates/server/src/routes/rooms.rs). `saved` says whether the store accepted the row.
pub mod Running
use loca.Base.{
  ℕ, String, Bool, true, false, not, ◌&&◌, ◌||◌, Option, none, some, List, [], ◌∷◌, ◌==◌, string_eq,
  nat_eq, if◌then◌else◌, ltb, leb, length, all, is_some, unwrap_or, map_option, format, Result, ok,
  err, Answer, failed, got,
}
use loca.Protocol.Chat.{ChatMode}
use loca.Protocol.Settings.{RoomSettings, SetSettings, ReminderRecipient}
use loca.Protocol.Access.{Invite, Membership, ModAction, ModState}
use loca.Hub.State.{Hub, SessionIdentity, is_deleted}
use loca.Hub.Settings
use loca.Hub.Settings.{LeadError, settings_of}
use loca.Hub.Moderation
use loca.Hub.Moderation.{DeleteReject}
use loca.Hub.Door.{smaster_name}
use loca.Hub.Members.{member_by_name}
use loca.Hub.Invites.{InviteError, invite_member_to_room}
use loca.Routes.Handler.{Status, Handler, reply, refuse, guard, call, ◌>>=◌, ◌>>◌}
use loca.Routes.Access.{
  Request, session_at, is_admin_req, is_master_req, is_room_operator_req, writable,
}

-- The caller runs the room.
unfoldable pub run_by_operator : Request → String → Handler (Unit {0})
unfolding is_room_operator_req
run_by_operator q room = do
  runs ← call (λ h. is_room_operator_req q h room)
  guard runs Status.unauthorized

-- What was saved, or that it could not be.
abbrev pub saved_answer : {A : Type 0} → Answer A → Handler (Status × A)
saved_answer (got a) = reply (Status.success, a)
saved_answer failed = refuse Status.service_unavailable

unfoldable pub set_mode : Request → String → ChatMode → Bool → Handler (Status × ChatMode)
unfolding run_by_operator writable Settings.set_mode
set_mode q room mode saved = do
  run_by_operator q room
  writable room
  made ← call (λ h. Settings.set_mode h room mode saved)
  saved_answer made

-- Who names the lead.
unfoldable pub lead_setter : Request → Handler String
unfolding session_at
lead_setter q = do
  found ← call (λ h. session_at q h)
  reply (unwrap_or "operator" (map_option (λ (x : SessionIdentity). x.name) found))

abbrev pub lead_set : Result RoomSettings LeadError → Handler (Status × RoomSettings)
lead_set (ok s) = reply (Status.success, s)
lead_set (err LeadError.active_goal) = refuse Status.conflict
lead_set (err LeadError.storage) = refuse Status.service_unavailable

unfoldable pub set_lead : Request → String → Option String → Bool → Handler (Status × RoomSettings)
unfolding run_by_operator writable lead_setter Settings.set_lead
set_lead q room lead saved = do
  run_by_operator q room
  writable room
  by ← lead_setter q
  made ← call (λ h. Settings.set_lead h room lead by q.now saved)
  lead_set made

-- `is_some_and(|value| value > 0)`
abbrev pub is_positive : Option ℕ → Bool
is_positive none = false
is_positive (some n) = ltb 0 n

abbrev pub is_lead_recipient : ReminderRecipient → Bool
is_lead_recipient ReminderRecipient.lead = true
is_lead_recipient _ = false

-- Whether the change switches reminders on, or moves those that are on to another recipient.
unfoldable pub enables_reminder : RoomSettings → SetSettings → Bool
enables_reminder s body =
    is_positive body.care_goal_secs
    || is_positive body.care_task_secs
    || is_positive body.care_wait_secs
    || is_positive body.care_silence_secs
    || (is_some body.care_recipient
        && (ltb 0 s.care_goal_secs
            || ltb 0 s.care_task_secs
            || ltb 0 s.care_wait_secs
            || ltb 0 s.care_silence_secs))

-- Reminders for a lead that the room has not.
unfoldable pub lacks_recipient : RoomSettings → SetSettings → Bool
unfolding enables_reminder
lacks_recipient s body =
    enables_reminder s body
    && is_lead_recipient (unwrap_or s.care_recipient body.care_recipient)
    && not (is_some s.lead)

unfoldable pub is_governance : SetSettings → Bool
is_governance body = is_some body.operators || is_some body.archived

-- `valid_name` is `valid_identity_name`.
abbrev pub is_valid_recipient : (String → Bool) → Option ReminderRecipient → Bool
is_valid_recipient valid_name (some (ReminderRecipient.person name)) = valid_name name
is_valid_recipient valid_name _ = true

unfoldable pub set_settings :
    Request → (String → Bool) → String → SetSettings → Bool → Handler (Status × RoomSettings)
unfolding run_by_operator is_admin_req is_governance is_deleted settings_of lacks_recipient
    Settings.set_settings
set_settings q valid_name room body saved = do
  run_by_operator q room
  governs ← call (λ h. is_admin_req q h)
  guard (not (not governs && is_governance body)) Status.forbidden
  sealed ← call (λ h. (h, is_deleted h room))
  guard (not sealed) Status.conflict
  guard (is_valid_recipient valid_name body.care_recipient) Status.bad_request
  current ← call (λ h. (h, settings_of h room))
  guard (not (lacks_recipient current body)) Status.bad_request
  made ← call (λ h. Settings.set_settings h room body q.now saved)
  saved_answer made

-- An ASCII letter or digit
abbrev pub is_alphanumeric_byte : ℕ → Bool
is_alphanumeric_byte b = leb 48 b && leb b 57 || leb 65 b && leb b 90 || leb 97 b && leb b 122

-- ".", "_" and "-" are 46, 95 and 45.
abbrev pub is_name_byte : ℕ → Bool
is_name_byte b = is_alphanumeric_byte b || b == 46 || b == 95 || b == 45

-- On the bytes of the name.
unfoldable pub valid_identity_name : List ℕ → Bool
valid_identity_name [] = false
valid_identity_name (b ∷ bytes) =
    leb (length (b ∷ bytes)) 64 && is_alphanumeric_byte b && all is_name_byte (b ∷ bytes)

abbrev pub davet_made : Result Invite InviteError → Handler (Status × Invite)
davet_made (ok i) = reply (Status.success, i)
davet_made (err InviteError.already_invited) = refuse Status.conflict
davet_made (err InviteError.member_not_found) = refuse Status.conflict
davet_made (err InviteError.full) = refuse Status.conflict
davet_made (err InviteError.reserved) = refuse Status.forbidden
davet_made (err InviteError.storage) = refuse Status.service_unavailable
davet_made (err InviteError.missing_room) = refuse Status.not_found
davet_made (err InviteError.sealed) = refuse Status.conflict

-- Who signs a davet.
unfoldable pub signature : Request → Hub → String
unfolding smaster_name
signature q h =
    unwrap_or "master" (map_option (λ n. format ("smaster:" ∷ n ∷ [])) (smaster_name h q.admin))

-- A davet for the member of that name.
unfoldable pub davet_for :
    Request → String → String → Bool → Option Membership → Handler (Status × Invite)
unfolding signature invite_member_to_room
davet_for q room token saved none = refuse Status.conflict
davet_for q room token saved (some m) = do
  made ← call (λ h.
      invite_member_to_room q.identity.member_suspended h m.token room (signature q h) token q.now
        saved)
  davet_made made

-- `token` is the davet's, drawn at random.
unfoldable pub create_invite : Request → String → String → String → Bool → Handler (Status × Invite)
unfolding is_admin_req member_by_name davet_for
create_invite q room name token saved = do
  governs ← call (λ h. is_admin_req q h)
  guard governs Status.unauthorized
  guard (not (q.trim name == "")) Status.bad_request
  found ← call (λ h. (h, member_by_name h (q.trim name)))
  davet_for q room token saved found

abbrev pub room_sealed : Result Bool DeleteReject → Handler Status
room_sealed (ok true) = reply Status.no_content
room_sealed (ok false) = refuse Status.not_found
room_sealed (err DeleteReject.not_archived) = refuse Status.conflict
room_sealed (err DeleteReject.storage) = refuse Status.service_unavailable

unfoldable pub delete_room : Request → String → Bool → Handler Status
unfolding is_master_req Moderation.delete_room
delete_room q room saved = do
  rules ← call (λ h. is_master_req q h)
  guard rules Status.unauthorized
  made ← call (λ h. Moderation.delete_room h room saved)
  room_sealed made

unfoldable pub moderate :
    Request → String → ModAction → String → Bool → Bool → Handler (Status × ModState)
unfolding run_by_operator Moderation.moderate
moderate q room action name saved_ban saved_davets = do
  run_by_operator q room
  made ← call (λ h. Moderation.moderate h room action name saved_ban saved_davets)
  saved_answer made
