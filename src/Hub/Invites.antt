-- ===== src/Hub/Invites.antt =====
-- Davets, the invitations to one room, and the sessions that they carry
-- (crates/server/src/hub.rs). `suspended` is the store's answer on a member, where a failure
-- counts as suspended; `saved` says whether the store accepted the change.
pub mod Seats
pub mod Revocation
use loca.Base.{
  ℕ, suc, ◌+◌, String, Bool, true, false, not, ◌&&◌, ◌||◌, Option, none, some, List, [], ◌∷◌, ◌==◌,
  string_eq, option_eq, if◌then◌else◌, leb, contains, any, Answer, failed, got, Result, ok, err,
}
use loca.Base.Dict
use loca.Base.Dict.{Dict}
use loca.Protocol.Access.{Invite, Membership}
use loca.Protocol.Frames.{ServerFrame}
use loca.Hub.State.{Room, Hub, SessionIdentity, LobbyEvent, send, put_room, is_deleted, room_exists}
use loca.Hub.Seats.{capacity}

unfoldable pub admin_open : Hub → Bool
admin_open h = h.admin_token == ""

unfoldable pub member_of : (String → Bool) → Hub → String → Option Membership
member_of suspended h token = if suspended token then none else Dict.lookup token h.members

unfoldable pub invite_by_token : (String → Bool) → Hub → String → Option Invite
invite_by_token suspended h token = elim (Dict.lookup token h.invites) [
  | none ↦ none
  | some i ↦ if not (i.member == "") && suspended i.member then none else some i
]

unfoldable pub invite_for : (String → Bool) → Hub → String → Option String → Option Invite
invite_for suspended h room none = none
invite_for suspended h room (some token) = elim (invite_by_token suspended h token) [
  | none ↦ none
  | some i ↦ if i.room == room then some i else none
]

unfoldable pub has_active_invite : Hub → String → String → Bool
has_active_invite h room member =
    any (λ i. i.room == room && i.member == member) (Dict.values h.invites)

-- How many live davets a room has.
unfoldable pub count_for : String → List Invite → ℕ
count_for room [] = 0
count_for room (i ∷ is) = let rest = count_for room is in if i.room == room then suc rest else rest

unfoldable pub add_invite : (String → Bool) → Hub → Invite → Bool → Answer Hub
unfolding member_of
add_invite suspended h i saved = elim (member_of suspended h i.member) [
  | none ↦ if i.member == "" then keep else failed
  | some m ↦ keep
]
  where
    keep : Answer Hub
    keep =
        if is_deleted h i.room
        then failed
        else if saved
        then got (record h { invites = Dict.insert i.token i h.invites })
        else failed

pub data InviteError : Type 0 where
  missing_room member_not_found already_invited full storage reserved sealed : InviteError

unfoldable pub new_invite : Membership → String → String → String → ℕ → Invite
new_invite m room token issued_by now = record {
  token = token;
  room = room;
  member = m.token;
  name = m.name;
  kind = m.kind;
  issued_at = now;
  issued_by = issued_by;
}

unfoldable pub issue : (String → Bool) → Hub → Invite → Bool → Hub × Result Invite InviteError
issue suspended h i saved = elim (add_invite suspended h i saved) [
  | failed ↦ (h, err InviteError.storage)
  | got h' ↦
      (record h' { lobby_sent = LobbyEvent.called i.member i.room i.token ∷ h'.lobby_sent }, ok i)
]

-- `token` is the new davet's token, drawn at random.
unfoldable pub invite_member_to_room :
    (String → Bool)
    → Hub
    → String
    → String
    → String
    → String
    → ℕ
    → Bool
    → Hub × Result Invite InviteError
unfolding issue new_invite member_of has_active_invite
invite_member_to_room suspended h member room issued_by token now saved =
    if is_deleted h room
    then (h, err InviteError.sealed)
    else if not (admin_open h) && not (room_exists h room)
    then (h, err InviteError.missing_room)
    else elim (member_of suspended h member) [
      | none ↦ (h, err InviteError.member_not_found)
      | some m ↦
          if room == h.reserved_room && not (contains m.name h.caretakers)
          then (h, err InviteError.reserved)
          else if has_active_invite h room member
          then (h, err InviteError.already_invited)
          else if leb capacity (count_for room (Dict.values h.invites))
          then (h, err InviteError.full)
          else issue suspended h (new_invite m room token issued_by now) saved
    ]

-- The sessions of a member in one room.
unfoldable pub proves : String → String → SessionIdentity → Bool
proves room member s = s.member == some member && s.loca == some room

unfoldable pub revoke_sessions_for_davet : String → String → Hub → Hub
unfolding proves
revoke_sessions_for_davet room member h =
    if member == ""
    then h
    else record h { sessions = Dict.retain (λ token s. not (proves room member s)) h.sessions }

unfoldable pub close_connections : String → String → Hub → Hub
unfolding send put_room
close_connections room name h = elim (Dict.lookup room h.rooms) [
  | none ↦ h
  | some r ↦ put_room h room (send (ServerFrame.kicked name false) r)
]

-- What a davet opened is closed with it.
unfoldable pub cascade : List Invite → Hub → Hub
cascade [] h = h
cascade (i ∷ is) h =
    cascade is (close_connections i.room i.name (revoke_sessions_for_davet i.room i.member h))

unfoldable pub revoke_invite : Hub → String → Bool → Hub × Answer Bool
unfolding cascade
revoke_invite h token saved = elim (Dict.lookup token h.invites) [
  | none ↦ (h, got false)
  | some i ↦
      if saved
      then (cascade (i ∷ []) (record h { invites = Dict.remove token h.invites }), got true)
      else (h, failed)
]

-- The davets of a room under a name.
unfoldable pub named : String → String → Invite → Bool
named room name i = i.room == room && i.name == name

unfoldable pub named_invites : String → String → List Invite → List Invite
unfolding named
named_invites room name [] = []
named_invites room name (i ∷ is) =
    let rest = named_invites room name is in if named room name i then i ∷ rest else rest

unfoldable pub remove_tokens : List Invite → Dict String Invite → Dict String Invite
remove_tokens [] invites = invites
remove_tokens (i ∷ is) invites = remove_tokens is (Dict.remove i.token invites)

-- Ends the davets of a list; the store is asked only if there are any.
unfoldable pub end_davets : Hub → List Invite → Bool → Answer Hub
unfolding cascade remove_tokens
end_davets h [] saved = got h
end_davets h (i ∷ is) saved =
    if saved
    then got (cascade (i ∷ is) (record h { invites = remove_tokens (i ∷ is) h.invites }))
    else failed

unfoldable pub revoke_invites_for : Hub → String → String → Bool → Answer Hub
unfolding end_davets named_invites
revoke_invites_for h room name saved =
    end_davets h (named_invites room name (Dict.values h.invites)) saved
