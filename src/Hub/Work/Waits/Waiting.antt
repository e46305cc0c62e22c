-- ===== src/Hub/Work/Waits/Waiting.antt =====
-- The waits of a room are in order, however they are set and cleared.
use loca.Base.{
  ℕ, ◌≡◌, refl, inl, inr, String, Bool, false, [], ◌∷◌, ◌==◌, string_eq, Bool-cases, Option-cases,
  format,
}
use loca.Base.Dict
use loca.Base.Dict.{Dict, AllEntries}
use loca.Base.Dict.Laws.{AllEntries-insert, AllEntries-remove, AllEntries-lookup}
use loca.Protocol.Work.{WaitState, SetWait}
use loca.Hub.State.{Room, Hub, send, room_of, put_room, new_room}
use loca.Hub.Clock.{next_generation}
use loca.Hub.Attention.Resolution.Frame.{resolve_wait_attentions_waits}
use loca.Hub.Work.Waits.{same_wait, since_of, new_wait, put_wait, set_wait, drop_wait, clear_wait}

-- A wait is filed under its waiter, who does not wait for itself.
pub record WaitOk (waiter : String) (w : WaitState) : Type 0 where
  pub filed : w.waiter ≡ waiter
  pub other : (waiter == w.waiting_for) ≡ false

abbrev pub RoomWaits : String → Room → Type 0
RoomWaits name r = AllEntries WaitOk r.waits

abbrev pub HubWaits : Hub → Type 0
HubWaits h = AllEntries RoomWaits h.rooms

room_of-RoomWaits : (h : Hub) (room : String) → HubWaits h → RoomWaits room (room_of h room)
unfolding room_of new_room
room_of-RoomWaits h room v = elim (Option-cases (Dict.lookup room h.rooms)) [
  | inl e ↦ rw e tt
  | inr (r, e) ↦ rw e (AllEntries-lookup RoomWaits room r h.rooms v e)
]

put_room-HubWaits :
    (h : Hub) (room : String) (r : Room)
    → RoomWaits room r
    → HubWaits h
    → HubWaits (put_room h room r)
unfolding put_room
put_room-HubWaits h room r p v = AllEntries-insert RoomWaits room r h.rooms p v

put_wait-RoomWaits :
    (room : String) (w : WaitState) (r : Room)
    → (w.waiter == w.waiting_for) ≡ false
    → RoomWaits room r
    → RoomWaits room (put_wait room w r)
unfolding put_wait send
put_wait-RoomWaits room w r other v =
    rw
      (resolve_wait_attentions_waits
        (record r { care_marks = Dict.remove (format ("wait:" ∷ w.waiter ∷ [])) r.care_marks }) room
        w.waiter w.since)
      (AllEntries-insert WaitOk w.waiter w r.waits (record { filed = refl; other = other }) v)

drop_wait-RoomWaits :
    (room waiter : String) (now : ℕ) (r : Room)
    → RoomWaits room r
    → RoomWaits room (drop_wait room waiter now r)
unfolding drop_wait send
drop_wait-RoomWaits room waiter now r v =
    rw
      (resolve_wait_attentions_waits (record r { waits = Dict.remove waiter r.waits }) room waiter
        now)
      (AllEntries-remove WaitOk waiter r.waits v)

-- Setting a wait, whatever is asked for and whatever the store answers, keeps the waits of every room
-- in order: each is filed under its waiter, and nobody waits for themselves.
pub set_wait-HubWaits :
    (h : Hub) (room : String) (req : SetWait) (now : ℕ) (saved : Bool)
    → HubWaits h
    → HubWaits (set_wait h room req now saved).0
unfolding set_wait new_wait
set_wait-HubWaits h room req now saved v =
    let r = room_of h room in
    let old = room_of-RoomWaits h room v in
    let since =
      next_generation h.condition_generation now (since_of (Dict.lookup req.by r.waits)) in
    let h' = record h { condition_generation = since } in
    elim (Bool-cases (req.by == req.waiting_for)) [
      | inl itself ↦ rw itself v
      | inr other ↦ elim (Option-cases (same_wait (Dict.lookup req.by r.waits) req)) [
        | inr (w, e) ↦ rw (other, e) (put_room-HubWaits h room r old v)
        | inl e ↦ elim (Bool-cases saved) [
          | inl stored ↦
              rw (other, e, stored)
                (put_room-HubWaits h' room _
                  (put_wait-RoomWaits room (new_wait room req since) r other old) v)
          | inr lost ↦ rw (other, e, lost) (put_room-HubWaits h' room r old v)
        ]
      ]
    ]

-- Clearing a wait, whoever's and whatever the store answers, keeps the waits of every room in order:
-- each is filed under its waiter, and nobody waits for themselves.
clear_wait-HubWaits :
    (h : Hub) (room waiter : String) (now : ℕ) (saved : Bool)
    → HubWaits h
    → HubWaits (clear_wait h room waiter now saved).0
unfolding clear_wait
clear_wait-HubWaits h room waiter now saved v = elim (Option-cases (Dict.lookup room h.rooms)) [
  | inl e ↦ rw (e, clear_wait) v
  | inr (r, e) ↦ elim (Bool-cases (Dict.contains_key waiter r.waits)) [
    | inr absent ↦ rw (e, absent, clear_wait) v
    | inl waits ↦ elim (Bool-cases saved) [
      | inl stored ↦
          rw (e, waits, stored, clear_wait)
            (put_room-HubWaits h room _
              (drop_wait-RoomWaits room waiter now r
                (AllEntries-lookup RoomWaits room r h.rooms v e))
              v)
      | inr lost ↦ rw (e, waits, lost, clear_wait) v
    ]
  ]
]
