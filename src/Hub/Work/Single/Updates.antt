-- ===== src/Hub/Work/Single/Updates.antt =====
-- The updates of goals keep one active goal at most in every room.
use loca.Base.{
  ℕ, ◌≡◌, ap, ◌∙◌, ◌⊎◌, inl, inr, String, Bool, true, false, not, ◌&&◌, Option, none, some, [], ◌∷◌,
  ◌==◌, nat_eq, string_eq, arith, ok, Bool-cases, Option-cases, Result-cases, format, show,
}
use loca.Base.Dict
use loca.Base.Dict.{Dict, AllEntries}
use loca.Base.Dict.Laws.{AllEntries-lookup}
use loca.Protocol.Work.{Goal, GoalStatus, UpdateGoal, goal_status_eq}
use loca.Hub.State.{Room, Hub, put_room, send}
use loca.Hub.Attention.Resolution.Frame.{core, core-resolve_condition_attention}
use loca.Hub.Clock.{next_generation}
use loca.Hub.Post.Rooms.{put_room-P}
use loca.Hub.Work.{is_active, normalize_goal_tasks}
use loca.Hub.Work.Goals.{
  goal_progressed, change_goal_status, edited_goal, other_active, edit_goal, put_goal, update_goal,
}
use loca.Hub.Work.Tasks.{clear_condition}
use loca.Hub.Work.Single.{
  OneActive, RoomGoals, HubGoals, RoomGoals-core, no_value, insert-OneActive, settle_id,
  settle_active,
}

pub core-clear_condition :
    (room key : String) (at : ℕ) (r : Room) → core (clear_condition room key at r) ≡ core r
unfolding clear_condition core
core-clear_condition room key at r =
    core-resolve_condition_attention (record r { care_marks = Dict.remove key r.care_marks }) room
      key at

pub clear_condition_goals :
    (room key : String) (at : ℕ) (r : Room) → (clear_condition room key at r).goals ≡ r.goals
unfolding core
clear_condition_goals room key at r =
    ap (λ (x : Room). x.goals) (core-clear_condition room key at r)

-- A goal that the status change leaves active was active, or no other goal is.
change_active :
    (r : Room) (id : ℕ) (old g : Goal) (status : Option GoalStatus) (now : ℕ)
    → change_goal_status r id old status now ≡ ok g
    → (g.id ≡ old.id) × (is_active g ≡ true → (is_active old ≡ true) ⊎ (other_active id r ≡ false))
unfolding change_goal_status is_active
change_active r id old g none now e = ground arith
change_active r id old g (some status) now e = ground (
  arith,
  goal_status_eq.equals_iff old.status status,
  goal_status_eq.equals_iff status GoalStatus.active,
)

edited_active :
    (r : Room) (id : ℕ) (old g : Goal) (req : UpdateGoal) (now : ℕ)
    → edited_goal r id old req now ≡ ok g
    → (g.id ≡ old.id) × (is_active g ≡ true → (is_active old ≡ true) ⊎ (other_active id r ≡ false))
unfolding edited_goal edit_goal
edited_active r id old g req now e =
    elim (Result-cases
      (normalize_goal_tasks r (edit_goal old req).completion (edit_goal old req).task_ids)) [
        | inr (why, n) ↦ ground arith
        | inl (ids, n) ↦
            elim (Result-cases (
              change_goal_status r id (record (edit_goal old req) { task_ids = ids }) req.status
                now)) [
                  | inr (why, n2) ↦ ground arith
                  | inl (changed, n2) ↦ ground (
                    arith,
                    change_active r id (record (edit_goal old req) { task_ids = ids }) changed
                        req.status now n2,
                    settle_id r now changed,
                    settle_active r now changed,
                    is_active,
                  )
                ]
      ]

updated_goal :
    (r : Room) (id : ℕ) (old g : Goal) (req : UpdateGoal) (now at : ℕ)
    → OneActive r.goals
    → Dict.lookup id r.goals ≡ some old
    → edited_goal r id old req now ≡ ok g
    → OneActive (Dict.insert id (record g { progress_at = at }) r.goals)
unfolding other_active
updated_goal r id old g req now at v filed e =
    let x = edited_active r id old g req now e in
    insert-OneActive id (record g { progress_at = at }) r.goals v (x.0 ∙ v.keyed id old filed)
      (λ j b active at_j busy. ground (
        arith,
        is_active,
        x.1,
        v.single id j old b filed at_j,
        no_value (λ other. not (other.id == id) && is_active other) j b r.goals,
        v.keyed j b at_j,
        nat_eq.equals_iff b.id id,
      ))

stored_goal :
    (h : Hub) (room : String) (id : ℕ) (g : Goal) (r : Room)
    → OneActive (Dict.insert id g r.goals)
    → HubGoals h
    → HubGoals (put_room h room (put_goal id g r))
unfolding put_goal send
stored_goal h room id g r one v = put_room-P RoomGoals RoomGoals-core h room (put_goal id g r) one v

-- Updating a goal keeps, in every room, the goals under their ids and one of them active at most,
-- whatever the store answers.
pub update_goal-HubGoals :
    (h : Hub) (room : String) (id : ℕ) (req : UpdateGoal) (now : ℕ) (saved : Bool)
    → HubGoals h
    → HubGoals (update_goal h room id req now saved).0
unfolding update_goal
update_goal-HubGoals h room id req now saved v = elim (Option-cases (Dict.lookup room h.rooms)) [
  | inl e ↦ rw (e, update_goal) v
  | inr (r, e) ↦ elim (Option-cases (Dict.lookup id r.goals)) [
    | inl e2 ↦ rw (e, e2, update_goal) v
    | inr (old, e2) ↦ elim (Result-cases (edited_goal r id old req now)) [
      | inr (why, e3) ↦ rw (e, e2, e3, update_goal) v
      | inl (g, e3) ↦
          let at = next_generation h.condition_generation now g.progress_at in
          let key = format ("goal:" ∷ show id ∷ []) in
          let one = AllEntries-lookup RoomGoals room r h.rooms v e in
          elim (Bool-cases (goal_progressed old g)) [
            | inl moved ↦ elim (Bool-cases saved) [
              | inl stored ↦
                  rw (e, e2, e3, moved, stored, update_goal)
                    (stored_goal (record h { condition_generation = at }) room id
                      (record g { progress_at = at }) (clear_condition room key at r)
                      (rw (clear_condition_goals room key at r)
                        (updated_goal r id old g req now at one e2 e3))
                      v)
              | inr lost ↦ rw (e, e2, e3, moved, lost, update_goal) v
            ]
            | inr still ↦ elim (Bool-cases saved) [
              | inl stored ↦
                  rw (e, e2, e3, still, stored, update_goal)
                    (stored_goal h room id g r
                      (updated_goal r id old g req now g.progress_at one e2 e3) v)
              | inr lost ↦ rw (e, e2, e3, still, lost, update_goal) v
            ]
          ]
    ]
  ]
]
