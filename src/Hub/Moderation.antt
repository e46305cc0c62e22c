-- ===== src/Hub/Moderation.antt =====
-- Muting, kicking, banning and releasing, and sealing a room (crates/server/src/hub.rs).
-- `saved_ban` and `saved_davets` say whether the store accepted the row and the revocations.
pub mod Effects
use loca.Base.{
  ℕ, String, Bool, true, false, not, ◌&&◌, Option, none, some, List, [], ◌∷◌, ◌==◌, string_eq,
  if◌then◌else◌, contains, add, remove, sort_by, str_le, Answer, failed, got, Result, ok, err,
}
use loca.Base.Dict
use loca.Base.Dict.{Dict}
use loca.Protocol.Chat.{Message}
use loca.Protocol.Access.{ModAction, ModState}
use loca.Protocol.Frames.{ServerFrame}
use loca.Hub.State.{Seat, Room, Hub, send, room_of, put_room, is_deleted}
use loca.Hub.Seats.{announce_members}
use loca.Hub.Invites.{revoke_invites_for}

unfoldable pub state_of_room : Room → ModState
state_of_room r = record { muted = sort_by str_le r.muted; banned = sort_by str_le r.banned }

unfoldable pub mod_state : Hub → String → ModState
unfolding state_of_room
mod_state h room = elim (Dict.lookup room h.rooms) [
  | none ↦ record { muted = []; banned = [] }
  | some r ↦ state_of_room r
]

-- Whichever seats wear the name are dropped.
unfoldable pub drop_seats : String → Room → Room
drop_seats name r = record r { members = Dict.retain (λ id s. not (s.name == name)) r.members }

eject : String → Room → Room
unfolding send drop_seats announce_members
eject name r = announce_members (drop_seats name (send (ServerFrame.kicked name false) r))

announce_state : Room → Room
unfolding send state_of_room
announce_state r = send (ServerFrame.moderation (state_of_room r)) r

-- What an action does to the room.
unfoldable pub act : ModAction → String → Room → Room
unfolding eject announce_state send drop_seats announce_members
act ModAction.mute name r = announce_state (record r { muted = add name r.muted })
act ModAction.unmute name r = announce_state (record r { muted = remove name r.muted })
act ModAction.kick name r = eject name r
act ModAction.ban name r = announce_members (
    send (ServerFrame.kicked name true) (drop_seats name (record r { banned = add name r.banned })))
act ModAction.unban name r = announce_state (record r { banned = remove name r.banned })
act ModAction.release name r = eject name r

-- What the store is asked before, and the davets that end.
unfoldable pub prepare : ModAction → Hub → String → String → Bool → Bool → Answer Hub
prepare ModAction.mute h room name saved_ban saved_davets = if saved_ban then got h else failed
prepare ModAction.unmute h room name saved_ban saved_davets = if saved_ban then got h else failed
prepare ModAction.ban h room name saved_ban saved_davets =
    if saved_ban then revoke_invites_for h room name saved_davets else failed
prepare ModAction.unban h room name saved_ban saved_davets = if saved_ban then got h else failed
prepare ModAction.kick h room name saved_ban saved_davets =
    revoke_invites_for h room name saved_davets
prepare ModAction.release h room name saved_ban saved_davets =
    revoke_invites_for h room name saved_davets

unfoldable pub moderate : Hub → String → ModAction → String → Bool → Bool → Hub × Answer ModState
unfolding act prepare
moderate h room action name saved_ban saved_davets =
    if is_deleted h room
    then (h, got (mod_state h room))
    else elim (prepare action h room name saved_ban saved_davets) [
      | failed ↦ (h, failed)
      | got h' ↦
          let r = act action name (room_of h' room) in (put_room h' room r, got (state_of_room r))
    ]

pub data DeleteReject : Type 0 where
  not_archived storage : DeleteReject

-- `saved` says whether the store sealed the room.
unfoldable pub delete_room : Hub → String → Bool → Hub × Result Bool DeleteReject
delete_room h room saved = elim (Dict.lookup room h.rooms) [
  | none ↦ (h, ok false)
  | some r ↦
      if not r.settings.archived
      then (h, err DeleteReject.not_archived)
      else if saved
      then (record h { rooms = Dict.remove room h.rooms; deleted = add room h.deleted }, ok true)
      else (h, err DeleteReject.storage)
]

-- `subscribe` makes the room if it is not there; the answer is its history.
unfoldable pub subscribe : Hub → String → Hub × List Message
subscribe h room =
    if is_deleted h room
    then (h, [])
    else (put_room h room (room_of h room), (room_of h room).history)
