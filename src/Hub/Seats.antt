-- ===== src/Hub/Seats.antt =====
-- Taking and leaving a seat: `join`, `leave` and `member_list` (crates/server/src/hub.rs).
pub mod Bounds
pub mod Readers
use loca.Base.{
  ℕ, suc, ◌+◌, ◌-◌, String, Bool, true, false, not, ◌&&◌, Option, none, some, List, [], ◌∷◌, map,
  ◌==◌, string_eq, nat_eq, if◌then◌else◌, leb, length, sort_by, str_le, u64_max, sat_add,
}
use loca.Base.Dict
use loca.Base.Dict.{Dict}
use loca.Protocol.Chat.{SenderType, Member, sender_type_eq}
use loca.Protocol.Frames.{ServerFrame}
use loca.Hub.State.{Seat, Room, Hub, send, room_of, put_room, is_deleted}

-- `LOCA_KAPASITE`
abbrev pub capacity : ℕ
capacity = 7

-- `member_list`: the roster, sorted by name.
unfoldable pub member_list : Room → List Member
member_list r =
    sort_by (λ a b. str_le a.name b.name)
      (map (λ s. record { name = s.name; kind = s.kind }) (Dict.values r.members))

-- The refusal of a seat: a new identity in a full room.
unfoldable pub is_full : Room → String → Bool
is_full r identity = not (Dict.contains_key identity r.members) && leb capacity (length r.members)

unfoldable pub is_user : SenderType → Bool
is_user k = k == SenderType.user

-- Another reader of a human's seat: the same name, and a human before and now.
unfoldable pub additional_human_reader : Seat → String → SenderType → Bool
unfolding is_user
additional_human_reader s name kind = s.name == name && (is_user s.kind && is_user kind)

-- The seat map after a join. A further human reader is counted; any other rejoin takes the seat
-- over and resets the count; a new identity gets a seat.
unfoldable pub seated : Option Seat → String → SenderType → Seat
unfolding additional_human_reader
seated none name kind = record { name = name; kind = kind; count = 1 }
seated (some s) name kind =
    if additional_human_reader s name kind
    then record s { count = sat_add s.count 1 }
    else record { name = name; kind = kind; count = 1 }

-- The frame that tells older connections of the identity to close.
unfoldable pub evict : Option Seat → String → String → SenderType → ℕ → Room → Room
unfolding additional_human_reader send
evict none identity name kind session r = r
evict (some s) identity name kind session r =
    if additional_human_reader s name kind
    then r
    else send (ServerFrame.evicted name identity session) r

unfoldable pub announce_members : Room → Room
unfolding send member_list
announce_members r = send (ServerFrame.members (member_list r)) r

unfoldable pub take_seat : String → String → SenderType → ℕ → Room → Room
unfolding seated evict announce_members
take_seat identity name kind session r =
    let old = Dict.lookup identity r.members in
    let r' = evict old identity name kind session r in
    announce_members
      (record r' { members = Dict.insert identity (seated old name kind) r'.members })

unfoldable pub join : Hub → String → String → String → SenderType → ℕ → Hub × Bool
join h room identity name kind session =
    let r = room_of h room in
    if is_deleted h room
    then (h, false)
    else if is_full r identity
    then (put_room h room r, false)
    else (put_room h room (take_seat identity name kind session r), true)

-- One connection less; the seat is freed at zero.
unfoldable pub release_connection : Option Seat → String → Dict String Seat → Dict String Seat
release_connection none identity members = members
release_connection (some s) identity members =
    if s.count - 1 == 0
    then Dict.remove identity members
    else Dict.insert identity (record s { count = s.count - 1 }) members

unfoldable pub leave_seat : String → Room → Room
unfolding release_connection announce_members
leave_seat identity r =
    announce_members (record r {
      members = release_connection (Dict.lookup identity r.members) identity r.members;
    })

unfoldable pub leave : Hub → String → String → Hub
leave h room identity = elim (Dict.lookup room h.rooms) [
  | none ↦ h
  | some r ↦ put_room h room (leave_seat identity r)
]
