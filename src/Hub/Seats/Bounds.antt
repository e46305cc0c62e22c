-- ===== src/Hub/Seats/Bounds.antt =====
-- The bounds that joining and leaving keep: at most seven seats, no identity twice, and no seat
-- without a connection (crates/server/src/hub.rs).
use loca.Base.{
  ℕ, suc, ◌-◌, nat_eq, ◌≤◌, ◌<◌, ◌≡◌, refl, String, false, Option, none, some, inl, inr, ◌==◌,
  string_eq, length, arith, sat_add, Bool-cases, Option-cases, if◌then◌else◌,
}
use loca.Base.Dict
use loca.Base.Dict.{Dict, Distinct, AllEntries}
use loca.Base.Dict.Laws.{
  length-insert, length-remove-le, Distinct-insert, Distinct-remove, AllEntries-insert,
  AllEntries-remove, AllEntries-lookup, contains_key-lookup,
}
use loca.Protocol.Chat.{SenderType, ChatMode}
use loca.Hub.State.{Seat, Room, Hub, room_of, put_room, is_deleted, new_room}
use loca.Hub.Seats.{
  capacity, is_full, seated, evict, take_seat, join, release_connection, leave_seat, leave,
}

abbrev pub Live : String → Seat → Type 0
Live identity s = 0 < s.count

pub record SeatsOk (m : Dict String Seat) : Type 0 where
  pub distinct : Distinct m
  pub seats : length m ≤ capacity
  pub live : AllEntries Live m

seated-Live :
    (old : Option Seat) (identity name : String) (kind : SenderType)
    → ((s : Seat) → old ≡ some s → Live identity s)
    → Live identity (seated old name kind)
unfolding seated sat_add
seated-Live none identity name kind h = omega arith
seated-Live (some s) identity name kind h = ground (arith, h s refl)

pub evict_members :
    (old : Option Seat) (identity name : String) (kind : SenderType) (session : ℕ) (r : Room)
    → (evict old identity name kind session r).members ≡ r.members
unfolding evict
evict_members none identity name kind session r = refl
evict_members (some s) identity name kind session r = ground arith

pub take_seat_members :
    (identity name : String) (kind : SenderType) (session : ℕ) (r : Room)
    → (take_seat identity name kind session r).members
      ≡ Dict.insert identity (seated (Dict.lookup identity r.members) name kind) r.members
unfolding take_seat
take_seat_members identity name kind session r =
    ground (arith, evict_members (Dict.lookup identity r.members) identity name kind session r)

not_full_room :
    (r : Room) (identity : String)
    → is_full r identity ≡ false
    → length r.members ≤ capacity
    → (if Dict.contains_key identity r.members then length r.members else suc (length r.members))
      ≤ capacity
unfolding is_full
not_full_room r identity h k = ground arith

pub take_seat-SeatsOk :
    (identity name : String) (kind : SenderType) (session : ℕ) (r : Room)
    → is_full r identity ≡ false
    → SeatsOk r.members
    → SeatsOk (take_seat identity name kind session r).members
take_seat-SeatsOk identity name kind session r open_seat ok =
    rw (take_seat_members identity name kind session r) (record {
      distinct = Distinct-insert identity seat r.members ok.distinct;
      seats =
          rw (length-insert identity seat r.members) (not_full_room r identity open_seat ok.seats);
      live =
          AllEntries-insert Live identity seat r.members
            (seated-Live (Dict.lookup identity r.members) identity name kind
              (λ s e. AllEntries-lookup Live identity s r.members ok.live e))
            ok.live;
    })
  where
    seat : Seat
    seat = seated (Dict.lookup identity r.members) name kind

release_connection-SeatsOk :
    (old : Option Seat) (identity : String) (m : Dict String Seat)
    → Dict.lookup identity m ≡ old
    → SeatsOk m
    → SeatsOk (release_connection old identity m)
unfolding release_connection
release_connection-SeatsOk none identity m e ok = ok
release_connection-SeatsOk (some s) identity m e ok = elim (Bool-cases (s.count - 1 == 0)) [
  | inl last ↦ rw last (record {
    distinct = Distinct-remove identity m ok.distinct;
    seats = omega (arith, length-remove-le identity m, ok.seats);
    live = AllEntries-remove Live identity m ok.live;
  })
  | inr more ↦ rw more (record {
    distinct = Distinct-insert identity _ m ok.distinct;
    seats = ground (
      arith,
      length-insert identity (record s { count = s.count - 1 }) m,
      contains_key-lookup identity m,
    );
    live = AllEntries-insert Live identity _ m (ground arith) ok.live;
  })
]

pub leave_seat-SeatsOk :
    (identity : String) (r : Room) → SeatsOk r.members → SeatsOk (leave_seat identity r).members
unfolding leave_seat
leave_seat-SeatsOk identity r ok =
    release_connection-SeatsOk (Dict.lookup identity r.members) identity r.members refl ok

-- Every room of the hub keeps the bounds.
abbrev pub RoomSeats : String → Room → Type 0
RoomSeats name r = SeatsOk r.members

abbrev pub HubSeats : Hub → Type 0
HubSeats h = AllEntries RoomSeats h.rooms

new_room-SeatsOk : (h : Hub) → SeatsOk (new_room ChatMode.free h.default_settings).members
unfolding new_room
new_room-SeatsOk h = record { distinct = tt; seats = omega arith; live = tt }

pub room_of-SeatsOk : (h : Hub) (room : String) → HubSeats h → SeatsOk (room_of h room).members
unfolding room_of
room_of-SeatsOk h room ok = elim (Option-cases (Dict.lookup room h.rooms)) [
  | inl e ↦ rw e (new_room-SeatsOk h)
  | inr (r, e) ↦ rw e (AllEntries-lookup RoomSeats room r h.rooms ok e)
]

pub put_room-HubSeats :
    (h : Hub) (room : String) (r : Room)
    → SeatsOk r.members
    → HubSeats h
    → HubSeats (put_room h room r)
unfolding put_room
put_room-HubSeats h room r s ok = AllEntries-insert RoomSeats room r h.rooms s ok

-- A join, whether it takes a seat, shares one, takes one over or is turned away, keeps every room
-- within its capacity, with one seat for each identity and a live connection in each seat.
pub join-HubSeats :
    (h : Hub) (room identity name : String) (kind : SenderType) (session : ℕ)
    → HubSeats h
    → HubSeats (join h room identity name kind session).0
unfolding join
join-HubSeats h room identity name kind session ok = elim (Bool-cases (is_deleted h room)) [
  | inl gone ↦ rw gone ok
  | inr here ↦ elim (Bool-cases (is_full (room_of h room) identity)) [
    | inl full ↦ rw (here, full) (put_room-HubSeats h room _ (room_of-SeatsOk h room ok) ok)
    | inr open_seat ↦
        rw (here, open_seat)
          (put_room-HubSeats h room _
            (take_seat-SeatsOk identity name kind session _ open_seat (room_of-SeatsOk h room ok))
            ok)
  ]
]

-- A leave, of whichever identity and room, keeps every room within its capacity, with one seat for
-- each identity and a live connection in each seat: a seat without connections is freed.
pub leave-HubSeats :
    (h : Hub) (room identity : String) → HubSeats h → HubSeats (leave h room identity)
unfolding leave
leave-HubSeats h room identity ok = elim (Option-cases (Dict.lookup room h.rooms)) [
  | inl e ↦ rw (e, leave) ok
  | inr (r, e) ↦
      rw (e, leave)
        (put_room-HubSeats h room _
          (leave_seat-SeatsOk identity r (AllEntries-lookup RoomSeats room r h.rooms ok e)) ok)
]
