-- ===== src/Hub/Work/Single/Tasks.antt =====
-- The updates of tasks keep one active goal at most in every room.
use loca.Base.{
  ℕ, ◌≡◌, ◌≢◌, sym, ap, ◌∙◌, ◌==◌, failed, err, refl, inl, inr, String, Bool, true, ◌&&◌, Option,
  none, some, [], ◌∷◌, nat_eq, string_eq, find, arith, Bool-cases, Option-cases, Result-cases,
  Answer-cases, got, format, show, contains,
}
use loca.Base.Dict
use loca.Base.Dict.{Dict, AllEntries}
use loca.Base.Dict.Laws.{AllEntries-lookup}
use loca.Protocol.Work.{Task, Goal, UpdateTask, goal_status_eq}
use loca.Hub.State.{Room, Hub, send}
use loca.Hub.Clock.{next_generation}
use loca.Hub.Post.Rooms.{put_room-P}
use loca.Hub.Work.{TaskError, is_active, achieve, linked_goal_after_task_progress}
use loca.Hub.Work.Tasks.{
  assign, change_status, clear_condition, put_task, put_linked_goal, progressed_room, update_task,
  edited_task, task_progressed,
}
use loca.Hub.Work.Single.{OneActive, RoomGoals, HubGoals, RoomGoals-core, insert-OneActive}
use loca.Hub.Work.Single.Updates.{clear_condition_goals}

-- The goal that moves with a task is a goal of the room, and active only if that one is.
linked_from :
    (generation : ℕ) (r : Room) (task : Task) (now : ℕ) (g : Goal)
    → OneActive r.goals
    → (linked_goal_after_task_progress generation r task now).1 ≡ got (some g)
    → (k : ℕ) × (old : Goal) × (Dict.lookup k r.goals ≡ some old)
      × (g.id ≡ k)
      × (is_active g ≡ true → is_active old ≡ true)
unfolding linked_goal_after_task_progress achieve
linked_from generation r task now g v e =
    elim (Option-cases
      (find (λ goal. is_active goal && contains task.id goal.task_ids) (Dict.values r.goals))) [
        | inl e1 ↦ ground arith
        | inr (seen, e1) ↦ elim (Option-cases (Dict.lookup seen.id r.goals)) [
          | inl e2 ↦ ground arith
          | inr (old, e2) ↦
              (seen.id, old, e2, ground (arith, v.keyed seen.id old e2), ground (arith, is_active))
        ]
      ]

put_linked_goal-OneActive :
    (room : String) (generation : ℕ) (r r' : Room) (task : Task) (now : ℕ) (linked : Option Goal)
    → OneActive r.goals
    → r'.goals ≡ r.goals
    → (linked_goal_after_task_progress generation r task now).1 ≡ got linked
    → OneActive (put_linked_goal room linked r').goals
unfolding put_linked_goal send
put_linked_goal-OneActive room generation r r' task now none v same e = rw same v
put_linked_goal-OneActive room generation r r' task now (some g) v same e =
    let x = linked_from generation r task now g v e in
    rw (clear_condition_goals room (format ("goal:" ∷ show g.id ∷ [])) g.progress_at r', same)
      (insert-OneActive g.id g r.goals v refl
        (λ j b active at_j busy. ground (arith, x, v.single j x.0 b x.1 at_j)))

put_task_goals :
    (room key : String) (id at : ℕ) (out : Task) (r : Room)
    → (put_task id out (clear_condition room key at r)).goals ≡ r.goals
unfolding put_task send
put_task_goals room key id at out r = clear_condition_goals room key at r

progressed_room-OneActive :
    (room : String) (generation id : ℕ) (r : Room) (out : Task) (now : ℕ) (linked : Option Goal)
    → (linked_goal_after_task_progress generation r out now).1 ≡ got linked
    → OneActive r.goals
    → OneActive (progressed_room room id out linked r).goals
unfolding progressed_room
progressed_room-OneActive room generation id r out now linked e v =
    put_linked_goal-OneActive room generation r _ out now linked v
      (put_task_goals room (format ("task:" ∷ show id ∷ [])) id out.progress_at out r) e

-- Updating a task keeps, in every room, the goals under their ids and one of them active at most,
-- also when the goal of the task moves with it or is achieved, and whatever the store answers.
pub update_task-HubGoals :
    (h : Hub) (room : String) (id : ℕ) (req : UpdateTask) (is_operator : Bool) (now : ℕ)
    (saved : Bool)
    → HubGoals h
    → HubGoals (update_task h room id req is_operator now saved).0
unfolding update_task put_task send
update_task-HubGoals h room id req is_operator now saved v =
    elim (Option-cases (Dict.lookup room h.rooms)) [
      | inl e ↦ rw (e, update_task) v
      | inr (r, e) ↦ elim (Option-cases (Dict.lookup id r.tasks)) [
        | inl e2 ↦ rw (e, e2, update_task) v
        | inr (t, e2) ↦ elim (Result-cases (edited_task t req is_operator now)) [
          | inr (why, e3) ↦ rw (e, e2, e3, update_task) v
          | inl (t', e3) ↦
              let at = next_generation h.condition_generation now t.progress_at in
              let out = record t' { progress_at = at } in
              let linked = linked_goal_after_task_progress at r out at in
              let one = AllEntries-lookup RoomGoals room r h.rooms v e in
              elim (Bool-cases (task_progressed t t')) [
                | inl moved ↦ elim (Answer-cases linked.1) [
                  | inl panic ↦ rw (e, e2, e3, moved, panic, update_task) v
                  | inr (goal, e4) ↦ elim (Bool-cases saved) [
                    | inl stored ↦
                        rw (e, e2, e3, moved, e4, stored, update_task)
                          (put_room-P RoomGoals RoomGoals-core
                            (record h { condition_generation = linked.0 }) room
                            (progressed_room room id out goal r)
                            (progressed_room-OneActive room at id r out at goal e4 one) v)
                    | inr lost ↦ rw (e, e2, e3, moved, e4, lost, update_task) v
                  ]
                ]
                | inr still ↦ elim (Bool-cases saved) [
                  | inl stored ↦
                      rw (e, e2, e3, still, stored, update_task)
                        (put_room-P RoomGoals RoomGoals-core h room (put_task id t' r) one v)
                  | inr lost ↦ rw (e, e2, e3, still, lost, update_task) v
                ]
              ]
        ]
      ]
    ]

find_filed :
    (p : Goal → Bool) (m : Dict ℕ Goal) (g : Goal)
    → AllEntries (λ k (x : Goal). x.id ≡ k) m
    → find p (Dict.values m) ≡ some g
    → (old : Goal) × (Dict.lookup g.id m ≡ some old)
unfolding find Dict.lookup
find_filed p [] g filed e = ground arith
find_filed p ((k, v) ∷ m) g filed e = elim (Bool-cases (p v)) [
  | inl hit ↦
      let same : v ≡ g = ground (arith, hit) in
      let here : k ≡ g.id = sym filed.0 ∙ ap (λ (x : Goal). x.id) same in
      (v, ground (arith, here, nat_eq.equals_iff k g.id))
  | inr miss ↦
      let found = find_filed p m g filed.1 (ground (arith, miss)) in
      elim (Bool-cases (k == g.id)) [
        | inl same ↦ (v, ground (arith, same))
        | inr other ↦ (found.0, ground (arith, other, found.1))
      ]
]

-- Where the goals are filed under their ids, the one that is found is there.
linked_there :
    (generation : ℕ) (r : Room) (task : Task) (now : ℕ)
    → OneActive r.goals
    → (linked_goal_after_task_progress generation r task now).1 ≢ failed
unfolding linked_goal_after_task_progress
linked_there generation r task now v e =
    elim (Option-cases
      (find (λ goal. is_active goal && contains task.id goal.task_ids) (Dict.values r.goals))) [
        | inl e1 ↦ ground arith
        | inr (seen, e1) ↦
            let found =
              find_filed (λ goal. is_active goal && contains task.id goal.task_ids) r.goals seen
                v.filed e1 in
            ground (arith, e1, found.1)
      ]

edited_task-known :
    (t : Task) (req : UpdateTask) (is_operator : Bool) (now : ℕ)
    → edited_task t req is_operator now ≢ err TaskError.panicked
unfolding edited_task assign change_status
edited_task-known t req is_operator now e =
    ground (arith, Option-cases req.assigned_to, Option-cases req.status)

-- An update of a task panics nowhere, where every room has its goals under their ids.
pub update_task_settled :
    (h : Hub) (room : String) (id : ℕ) (req : UpdateTask) (is_operator : Bool) (now : ℕ)
    (saved : Bool)
    → HubGoals h
    → (update_task h room id req is_operator now saved).1 ≢ err TaskError.panicked
unfolding update_task
update_task_settled h room id req is_operator now saved v =
    elim (Option-cases (Dict.lookup room h.rooms)) [
      | inl e ↦ rw (e, update_task) (λ x. cc)
      | inr (r, e) ↦ elim (Option-cases (Dict.lookup id r.tasks)) [
        | inl e2 ↦ rw (e, e2, update_task) (λ x. cc)
        | inr (t, e2) ↦ elim (Result-cases (edited_task t req is_operator now)) [
          | inr (why, e3) ↦
              rw (e, e2, e3, update_task) (λ x. edited_task-known t req is_operator now (e3 ∙ x))
          | inl (t', e3) ↦
              let at = next_generation h.condition_generation now t.progress_at in
              let out = record t' { progress_at = at } in
              let linked = linked_goal_after_task_progress at r out at in
              let one = AllEntries-lookup RoomGoals room r h.rooms v e in
              elim (Bool-cases (task_progressed t t')) [
                | inl moved ↦ elim (Answer-cases linked.1) [
                  | inl panic ↦ elim (linked_there at r out at one panic) [ ]
                  | inr (goal, e4) ↦ elim (Bool-cases saved) [
                    | inl stored ↦ rw (e, e2, e3, moved, e4, stored, update_task) (λ x. cc)
                    | inr lost ↦ rw (e, e2, e3, moved, e4, lost, update_task) (λ x. cc)
                  ]
                ]
                | inr still ↦ elim (Bool-cases saved) [
                  | inl stored ↦ rw (e, e2, e3, still, stored, update_task) (λ x. cc)
                  | inr lost ↦ rw (e, e2, e3, still, lost, update_task) (λ x. cc)
                ]
              ]
        ]
      ]
    ]
