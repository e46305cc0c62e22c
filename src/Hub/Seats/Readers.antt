-- ===== src/Hub/Seats/Readers.antt =====
-- What a connection leaves behind: joining and then leaving (crates/server/src/hub.rs).
use loca.Base.{
  ℕ, ◌-◌, ◌<◌, ◌≡◌, refl, String, false, Option, none, some, inl, inr, ◌⊎◌, ◌==◌, string_eq, nat_eq,
  arith, sat_add, sat_add-lt, u64_max, beq_refl,
}
use loca.Base.Dict
use loca.Base.Dict.{Dict, Distinct, AllEntries}
use loca.Base.Dict.Laws.{lookup-insert, lookup-remove, insert-insert, insert-lookup, remove-insert}
use loca.Protocol.Chat.{SenderType, sender_type_eq}
use loca.Hub.State.{Seat, Room, Hub, room_of, put_room, is_deleted}
use loca.Hub.Seats.{
  is_full, seated, take_seat, join, release_connection, leave_seat, leave, is_user,
  additional_human_reader,
}
use loca.Hub.Seats.Bounds.{take_seat_members}

pub lookup-put_room :
    (h : Hub) (room : String) (r : Room) → Dict.lookup room (put_room h room r).rooms ≡ some r
unfolding put_room
lookup-put_room h room r = rw (lookup-insert room room r h.rooms, beq_refl room)

pub room_of-put_room : (h : Hub) (room : String) (r : Room) → room_of (put_room h room r) room ≡ r
unfolding room_of
room_of-put_room h room r = rw (lookup-put_room h room r)

join_open :
    (h : Hub) (room identity name : String) (kind : SenderType) (session : ℕ)
    → is_deleted h room ≡ false
    → is_full (room_of h room) identity ≡ false
    → (join h room identity name kind session).0
      ≡ put_room h room (take_seat identity name kind session (room_of h room))
unfolding join
join_open h room identity name kind session here open_seat = rw (here, open_seat)

leave-put_room :
    (h : Hub) (room identity : String) (r : Room)
    → leave (put_room h room r) room identity
      ≡ put_room (put_room h room r) room (leave_seat identity r)
unfolding leave
leave-put_room h room identity r = rw (lookup-put_room h room r, leave)

leave_after :
    (h : Hub) (room identity name : String) (kind : SenderType) (session : ℕ)
    → is_deleted h room ≡ false
    → is_full (room_of h room) identity ≡ false
    → room_of (leave (join h room identity name kind session).0 room identity) room
      ≡ leave_seat identity (take_seat identity name kind session (room_of h room))
leave_after h room identity name kind session here open_seat =
    rw (join_open h room identity name kind session here open_seat, leave-put_room)
      (room_of-put_room _ room _)

-- The seat map after a join and a leave.
leave_take_members :
    (identity name : String) (kind : SenderType) (session : ℕ) (r : Room)
    → (leave_seat identity (take_seat identity name kind session r)).members
      ≡ release_connection
          (some (seated (Dict.lookup identity r.members) name kind))
          identity
          (Dict.insert identity (seated (Dict.lookup identity r.members) name kind) r.members)
unfolding leave_seat
leave_take_members identity name kind session r =
    rw (take_seat_members identity name kind session r, lookup-insert, beq_refl identity)

reader_counts :
    (s : Seat) (name : String) (kind : SenderType)
    → s.name ≡ name
    → s.kind ≡ SenderType.user
    → kind ≡ SenderType.user
    → seated (some s) name kind ≡ record s { count = sat_add s.count 1 }
unfolding seated additional_human_reader is_user
reader_counts s name kind same human here = ground (arith, string_eq.equals_iff s.name name)

release_more :
    (s : Seat) (identity : String) (m : Dict String Seat)
    → Dict.lookup identity m ≡ some s
    → 0 < s.count
    → s.count < u64_max
    → release_connection
        (some (record s { count = sat_add s.count 1 }))
        identity
        (Dict.insert identity (record s { count = sat_add s.count 1 }) m)
      ≡ m
unfolding release_connection
release_more s identity m e held bound =
    let up : sat_add s.count 1 - 1 ≡ s.count = omega (arith, sat_add-lt s.count 1) in
    let more : (s.count == 0) ≡ false = ground arith in
    rw (up, more, insert-insert, insert-lookup identity s m e)

release_new :
    (identity name : String) (kind : SenderType) (m : Dict String Seat)
    → Dict.lookup identity m ≡ none
    → release_connection
        (some (seated none name kind))
        identity
        (Dict.insert identity (seated none name kind) m)
      ≡ m
unfolding release_connection seated
release_new identity name kind m e = remove-insert identity _ m e

-- One reader more of a human's seat: the seat is held under that name by a human.
pub record Reader (s : Seat) (name : String) (kind : SenderType) : Type 0 where
  pub same_name : s.name ≡ name
  pub was_human : s.kind ≡ SenderType.user
  pub is_human : kind ≡ SenderType.user
  pub held : 0 < s.count
  pub bound : s.count < u64_max

-- A seat that nobody holds, or one that the connection joins as a further reader.
abbrev pub Shares : Hub → String → String → String → SenderType → Type 0
Shares h room identity name kind =
    (Dict.lookup identity (room_of h room).members ≡ none)
    ⊎ ((s : Seat) × (Dict.lookup identity (room_of h room).members ≡ some s) × Reader s name kind)

-- In a room that is not sealed, a connection that is let in and takes no seat over leaves the seat
-- map as it found it when it goes: a new seat is freed, and of a human's seat the other readers stay.
pub leave-join :
    (h : Hub) (room identity name : String) (kind : SenderType) (session : ℕ)
    → is_deleted h room ≡ false
    → is_full (room_of h room) identity ≡ false
    → Shares h room identity name kind
    → (room_of (leave (join h room identity name kind session).0 room identity) room).members
      ≡ (room_of h room).members
leave-join h room identity name kind session here open_seat (inl e) =
    rw (leave_after h room identity name kind session here open_seat, leave_take_members, e)
      (release_new identity name kind _ e)
leave-join h room identity name kind session here open_seat (inr (s, e, r)) =
    rw
      (
        leave_after h room identity name kind session here open_seat,
        leave_take_members,
        e,
        reader_counts s name kind r.same_name r.was_human r.is_human,
      )
      (release_more s identity _ e r.held r.bound)

agent_resets : (old : Option Seat) (name : String) → (seated old name SenderType.agent).count ≡ 1
unfolding seated additional_human_reader is_user
agent_resets none name = refl
agent_resets (some s) name = ground arith

release_last :
    (s : Seat) (identity : String) (m : Dict String Seat)
    → s.count ≡ 1
    → Dict.lookup identity (release_connection (some s) identity m) ≡ none
unfolding release_connection
release_last s identity m e = rw (e, lookup-remove, beq_refl identity)

-- In a room that is not sealed, and where it is let in, an agent's seat is freed by one leave, however
-- many of its earlier connections never left: a reconnecting agent resets the count, so that no ghost
-- stays on the roster.
leave-join_agent :
    (h : Hub) (room identity name : String) (session : ℕ)
    → is_deleted h room ≡ false
    → is_full (room_of h room) identity ≡ false
    → Dict.lookup identity
        (room_of
          (leave (join h room identity name SenderType.agent session).0 room identity)
          room).members
      ≡ none
leave-join_agent h room identity name session here open_seat =
    rw
      (leave_after h room identity name SenderType.agent session here open_seat, leave_take_members)
      (release_last _ identity _
        (agent_resets (Dict.lookup identity (room_of h room).members) name))
