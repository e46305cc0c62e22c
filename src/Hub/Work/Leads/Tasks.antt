-- ===== src/Hub/Work/Leads/Tasks.antt =====
-- The updates of tasks keep a lead in every room with an active goal.
use loca.Base.{
  ℕ, ◌≡◌, refl, inl, inr, String, Bool, true, Option, none, some, List, [], ◌∷◌, string_eq, nat_eq,
  ◌&&◌, arith, Bool-cases, Option-cases, any, find, contains, is_some, Result-cases, Answer-cases,
  got, format, show, ap, ◌∙◌,
}
use loca.Base.Dict
use loca.Base.Dict.{Dict, AllEntries}
use loca.Base.Dict.Laws.{AllEntries-lookup}
use loca.Protocol.Work.{Task, Goal, UpdateTask}
use loca.Hub.State.{Room, Hub, send}
use loca.Hub.Attention.Resolution.Frame.{core}
use loca.Hub.Clock.{next_generation}
use loca.Hub.Settings.{has_active_goal}
use loca.Hub.Work.{is_active, linked_goal_after_task_progress}
use loca.Hub.Work.Tasks.{
  clear_condition, put_task, put_linked_goal, progressed_room, update_task, edited_task,
  task_progressed,
}
use loca.Hub.Work.Goals.{put_goal}
use loca.Hub.Work.Single.Updates.{core-clear_condition}
use loca.Hub.Work.Leads.{RoomLed, HubLed, put_room-HubLed, moved_led}

find-any :
    (p q : Goal → Bool) (gs : List Goal) (g : Goal)
    → ((x : Goal) → p x ≡ true → q x ≡ true)
    → find p gs ≡ some g
    → any q gs ≡ true
unfolding find any
find-any p q [] g imp e = ground arith
find-any p q (x ∷ gs) g imp e = ground (arith, imp x, find-any p q gs g imp)

-- If a goal moves with a task, some goal of the room is active.
linked_busy :
    (generation : ℕ) (r : Room) (task : Task) (now : ℕ) (g : Goal)
    → (linked_goal_after_task_progress generation r task now).1 ≡ got (some g)
    → has_active_goal r ≡ true
unfolding linked_goal_after_task_progress has_active_goal is_active
linked_busy generation r task now g e =
    elim (Option-cases
      (find (λ goal. is_active goal && contains task.id goal.task_ids) (Dict.values r.goals))) [
        | inl e1 ↦ ground arith
        | inr (seen, e1) ↦
            find-any (λ goal. is_active goal && contains task.id goal.task_ids) is_active
              (Dict.values r.goals) seen (λ x both. ground arith) e1
      ]

put_task_led :
    (room key : String) (id at : ℕ) (out : Task) (r : Room)
    → RoomLed room r
    → RoomLed room (put_task id out (clear_condition room key at r))
unfolding put_task send has_active_goal core
put_task_led room key id at out r v =
    let same = core-clear_condition room key at r in
    let goals : (clear_condition room key at r).goals ≡ r.goals = ap (λ (x : Room). x.goals) same in
    let settings : (clear_condition room key at r).settings ≡ r.settings =
      ap (λ (x : Room). x.settings) same in
    rw (goals, settings) v

linked_led :
    (room : String) (linked : Option Goal) (r : Room)
    → ((g : Goal) → linked ≡ some g → is_some r.settings.lead ≡ true)
    → RoomLed room r
    → RoomLed room (put_linked_goal room linked r)
unfolding put_linked_goal send put_goal
linked_led room none r leads v = v
linked_led room (some g) r leads v =
    moved_led room (format ("goal:" ∷ show g.id ∷ [])) g.id g.progress_at g r
      (ground (arith, leads g refl)) v

put_task_lead :
    (room key : String) (id at : ℕ) (out : Task) (r : Room)
    → (put_task id out (clear_condition room key at r)).settings ≡ r.settings
unfolding put_task send core
put_task_lead room key id at out r =
    ap (λ (x : Room). x.settings) (core-clear_condition room key at r)

progressed_led :
    (room : String) (generation id : ℕ) (r : Room) (out : Task) (now : ℕ) (linked : Option Goal)
    → (linked_goal_after_task_progress generation r out now).1 ≡ got linked
    → RoomLed room r
    → RoomLed room (progressed_room room id out linked r)
unfolding progressed_room
progressed_led room generation id r out now linked e v =
    let key = format ("task:" ∷ show id ∷ []) in
    linked_led room linked (put_task id out (clear_condition room key out.progress_at r))
      (λ g is.
        rw (put_task_lead room key id out.progress_at out r)
          (ground (arith, linked_busy generation r out now g (e ∙ ap got is), v)))
      (put_task_led room key id out.progress_at out r v)

-- Updating a task leaves somebody in the lead of every room with an active goal, also when the goal
-- of the task moves with it, and whatever the store answers.
pub update_task-HubLed :
    (h : Hub) (room : String) (id : ℕ) (req : UpdateTask) (is_operator : Bool) (now : ℕ)
    (saved : Bool)
    → HubLed h
    → HubLed (update_task h room id req is_operator now saved).0
unfolding update_task put_task send has_active_goal
update_task-HubLed h room id req is_operator now saved v =
    elim (Option-cases (Dict.lookup room h.rooms)) [
      | inl e ↦ rw (e, update_task) v
      | inr (r, e) ↦ elim (Option-cases (Dict.lookup id r.tasks)) [
        | inl e2 ↦ rw (e, e2, update_task) v
        | inr (t, e2) ↦ elim (Result-cases (edited_task t req is_operator now)) [
          | inr (why, e3) ↦ rw (e, e2, e3, update_task) v
          | inl (t', e3) ↦
              let at = next_generation h.condition_generation now t.progress_at in
              let out = record t' { progress_at = at } in
              let linked = linked_goal_after_task_progress at r out at in
              let led = AllEntries-lookup RoomLed room r h.rooms v e in
              elim (Bool-cases (task_progressed t t')) [
                | inl moved ↦ elim (Answer-cases linked.1) [
                  | inl panic ↦ rw (e, e2, e3, moved, panic, update_task) v
                  | inr (goal, e4) ↦ elim (Bool-cases saved) [
                    | inl stored ↦
                        rw (e, e2, e3, moved, e4, stored, update_task)
                          (put_room-HubLed (record h { condition_generation = linked.0 }) room
                            (progressed_room room id out goal r)
                            (progressed_led room at id r out at goal e4 led) v)
                    | inr lost ↦ rw (e, e2, e3, moved, e4, lost, update_task) v
                  ]
                ]
                | inr still ↦ elim (Bool-cases saved) [
                  | inl stored ↦
                      rw (e, e2, e3, still, stored, update_task)
                        (put_room-HubLed h room (put_task id t' r) led v)
                  | inr lost ↦ rw (e, e2, e3, still, lost, update_task) v
                ]
              ]
        ]
      ]
    ]
