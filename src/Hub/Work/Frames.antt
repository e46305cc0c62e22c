-- ===== src/Hub/Work/Frames.antt =====
-- Declaring a task, setting a wait and clearing one leave the goals and the settings of every room alone.
use loca.Base.{
  ℕ, ◌≡◌, refl, sym, ap, inl, inr, String, Bool, true, false, [], ◌∷◌, ◌==◌, string_eq, Bool-cases,
  Option-cases, format,
}
use loca.Base.Dict
use loca.Base.Dict.{Dict, AllEntries}
use loca.Base.Dict.Laws.{AllEntries-insert, AllEntries-lookup}
use loca.Protocol.Chat.{ChatMode}
use loca.Protocol.Work.{CreateTask, WaitState, SetWait}
use loca.Hub.State.{Room, Hub, send, room_of, put_room, new_room}
use loca.Hub.Clock.{next_generation}
use loca.Hub.Attention.Resolution.Frame.{core, core-resolve_wait_attentions}
use loca.Hub.Work.Tasks.{create_task}
use loca.Hub.Work.Waits.{same_wait, since_of, new_wait, put_wait, set_wait, drop_wait, clear_wait}

core-put_wait : (room : String) (w : WaitState) (r : Room) → core (put_wait room w r) ≡ core r
unfolding put_wait send core
core-put_wait room w r =
    core-resolve_wait_attentions
      (record r { care_marks = Dict.remove (format ("wait:" ∷ w.waiter ∷ [])) r.care_marks }) room
      w.waiter w.since

core-drop_wait :
    (room waiter : String) (now : ℕ) (r : Room) → core (drop_wait room waiter now r) ≡ core r
unfolding drop_wait send core
core-drop_wait room waiter now r =
    core-resolve_wait_attentions (record r { waits = Dict.remove waiter r.waits }) room waiter now

module _ (P : String → Room → Type 0)
    (P-goals : (name : String) (r r' : Room)
      → r.goals ≡ r'.goals
      → r.settings ≡ r'.settings
      → P name r
      → P name r')
    (P-new : (name : String) (h : Hub) → P name (new_room ChatMode.free h.default_settings)) where
  P-core : (name : String) (r r' : Room) → core r ≡ core r' → P name r → P name r'
  unfolding core
  P-core name r r' e p =
      P-goals name r r' (ap (λ (x : Room). x.goals) e) (ap (λ (x : Room). x.settings) e) p

  room_of-kept : (h : Hub) (room : String) → AllEntries P h.rooms → P room (room_of h room)
  unfolding room_of
  room_of-kept h room all = elim (Option-cases (Dict.lookup room h.rooms)) [
    | inl e ↦ rw e (P-new room h)
    | inr (r, e) ↦ rw e (AllEntries-lookup P room r h.rooms all e)
  ]

  put_room-kept :
      (h : Hub) (room : String) (r : Room)
      → P room r
      → AllEntries P h.rooms
      → AllEntries P (put_room h room r).rooms
  unfolding put_room
  put_room-kept h room r p all = AllEntries-insert P room r h.rooms p all

  pub create_task-kept :
      (h : Hub) (room : String) (req : CreateTask) (now : ℕ) (saved : Bool)
      → AllEntries P h.rooms
      → AllEntries P (create_task h room req now saved).0.rooms
  unfolding create_task send
  create_task-kept h room req now true all =
      put_room-kept h room _ (P-goals room (room_of h room) _ refl refl (room_of-kept h room all))
        all
  create_task-kept h room req now false all = all

  pub set_wait-kept :
      (h : Hub) (room : String) (req : SetWait) (now : ℕ) (saved : Bool)
      → AllEntries P h.rooms
      → AllEntries P (set_wait h room req now saved).0.rooms
  unfolding set_wait
  set_wait-kept h room req now saved all =
      let r = room_of h room in
      let old = room_of-kept h room all in
      let since =
        next_generation h.condition_generation now (since_of (Dict.lookup req.by r.waits)) in
      let h' = record h { condition_generation = since } in
      elim (Bool-cases (req.by == req.waiting_for)) [
        | inl itself ↦ rw itself all
        | inr other ↦ elim (Option-cases (same_wait (Dict.lookup req.by r.waits) req)) [
          | inr (w, e) ↦ rw (other, e) (put_room-kept h room r old all)
          | inl e ↦ elim (Bool-cases saved) [
            | inl stored ↦
                rw (other, e, stored)
                  (put_room-kept h' room (put_wait room (new_wait room req since) r)
                    (P-core room r _ (sym (core-put_wait room (new_wait room req since) r)) old)
                    all)
            | inr lost ↦ rw (other, e, lost) (put_room-kept h' room r old all)
          ]
        ]
      ]

  pub clear_wait-kept :
      (h : Hub) (room waiter : String) (now : ℕ) (saved : Bool)
      → AllEntries P h.rooms
      → AllEntries P (clear_wait h room waiter now saved).0.rooms
  unfolding clear_wait
  clear_wait-kept h room waiter now saved all = elim (Option-cases (Dict.lookup room h.rooms)) [
    | inl e ↦ rw (e, clear_wait) all
    | inr (r, e) ↦ elim (Bool-cases (Dict.contains_key waiter r.waits)) [
      | inr absent ↦ rw (e, absent, clear_wait) all
      | inl waits ↦ elim (Bool-cases saved) [
        | inr lost ↦ rw (e, waits, lost, clear_wait) all
        | inl stored ↦
            rw (e, waits, stored, clear_wait)
              (put_room-kept h room (drop_wait room waiter now r)
                (P-core room r _ (sym (core-drop_wait room waiter now r))
                  (AllEntries-lookup P room r h.rooms all e))
                all)
      ]
    ]
  ]
