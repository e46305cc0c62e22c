-- ===== src/Hub/Work/Waits.antt =====
-- The waits of a room: who waits for whom (crates/server/src/hub/work/wait.rs).
pub mod Cycles
pub mod Waiting
use loca.Base.{
  ℕ, zero, suc, ◌+◌, String, Bool, true, false, not, ◌&&◌, Option, none, some, List, [], ◌∷◌, ◌++◌,
  ◌==◌, string_eq, if◌then◌else◌, unwrap_or, contains, length, format, Result, ok, err,
}
use loca.Base.Dict
use loca.Base.Dict.{Dict}
use loca.Protocol.Work.{WaitState, SetWait}
use loca.Protocol.Frames.{ServerFrame}
use loca.Hub.State.{Room, Hub, send, room_of, put_room}
use loca.Hub.Clock.{next_generation}
use loca.Hub.Attention.Resolution.{resolve_wait_attentions}

pub data WaitError : Type 0 where
  not_found self_wait storage : WaitError

-- Whom `current` waits for, once the proposed wait is in force.
unfoldable pub next_waited : Dict String WaitState → WaitState → String → Option String
next_waited waits proposed current =
    if current == proposed.waiter
    then some proposed.waiting_for
    else elim (Dict.lookup current waits) [ none ↦ none | some w ↦ some w.waiting_for ]

-- The loop of `wait_cycle_after`. The source keeps the visited names in a set beside the path; they
-- are the names of the path. `none` says that the fuel ran out.
unfoldable pub walk :
    ℕ → Dict String WaitState → WaitState → List String → String → Option (List String)
unfolding next_waited
walk zero waits proposed path current = none
walk (suc fuel) waits proposed path current = elim (contains current path) [
  | true ↦ some []
  | false ↦ elim (next_waited waits proposed current) [
    | none ↦ some []
    | some next ↦ elim (next == proposed.waiter) [
      | true ↦ some (path ++ current ∷ [])
      | false ↦ walk fuel waits proposed (path ++ current ∷ []) next
    ]
  ]
]

-- Two steps more than there are waits: the proposed wait, and the step that finds no new name.
unfoldable pub wait_cycle_after : Dict String WaitState → WaitState → Option (List String)
unfolding walk
wait_cycle_after waits proposed = walk (2 + length waits) waits proposed [] proposed.waiter

unfoldable pub new_wait : String → SetWait → ℕ → WaitState
new_wait room req since = record {
  room = room;
  waiter = req.by;
  waiting_for = req.waiting_for;
  reason = req.reason;
  since = since;
  last_signal_at = none;
  signal_count = 0;
}

-- The request says what the wait in force says.
unfoldable pub same_wait : Option WaitState → SetWait → Option WaitState
same_wait none req = none
same_wait (some w) req =
    if w.waiting_for == req.waiting_for && w.reason == req.reason then some w else none

unfoldable pub since_of : Option WaitState → ℕ
since_of none = 0
since_of (some w) = w.since

unfoldable pub put_wait : String → WaitState → Room → Room
unfolding send
put_wait room w r =
    let cleared =
      resolve_wait_attentions
        (record r { care_marks = Dict.remove (format ("wait:" ∷ w.waiter ∷ [])) r.care_marks }) room
        w.waiter w.since in
    send (ServerFrame.wait w.waiter (some w))
      (record cleared { waits = Dict.insert w.waiter w cleared.waits })

-- The room is made if it is not there.
unfoldable pub set_wait : Hub → String → SetWait → ℕ → Bool → Hub × Result WaitState WaitError
unfolding new_wait same_wait since_of put_wait
set_wait h room req now saved =
    let r = room_of h room in
    let existing = Dict.lookup req.by r.waits in
    let since = next_generation h.condition_generation now (since_of existing) in
    let w = new_wait room req since in
    let h' = record h { condition_generation = since } in
    if req.by == req.waiting_for
    then (h, err WaitError.self_wait)
    else elim (same_wait existing req) [
      | some same ↦ (put_room h room r, ok same)
      | none ↦
          if saved
          then (put_room h' room (put_wait room w r), ok w)
          else (put_room h' room r, err WaitError.storage)
    ]

unfoldable pub drop_wait : String → String → ℕ → Room → Room
unfolding send
drop_wait room waiter now r =
    send (ServerFrame.wait waiter none)
      (resolve_wait_attentions (record r { waits = Dict.remove waiter r.waits }) room waiter now)

unfoldable pub clear_wait : Hub → String → String → ℕ → Bool → Hub × Result {0, 0} Unit WaitError
unfolding drop_wait
clear_wait h room waiter now saved = elim (Dict.lookup room h.rooms) [
  | none ↦ (h, err WaitError.not_found)
  | some r ↦
      if not (Dict.contains_key waiter r.waits)
      then (h, err WaitError.not_found)
      else if saved
      then (put_room h room (drop_wait room waiter now r), ok tt)
      else (h, err WaitError.storage)
]
