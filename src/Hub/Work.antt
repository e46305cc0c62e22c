-- ===== src/Hub/Work.antt =====
-- Tasks, goals and their rules (crates/server/src/hub/work/mod.rs, policy.rs, task.rs, goal.rs).
-- `saved` says whether the store accepted the rows; `now` is what the hub's clock reads.
pub mod Tasks
pub mod Goals
pub mod Authority
pub mod Single
pub mod Leads
pub mod Waits
pub mod Frames
use loca.Base.{
  ℕ, ◌+◌, String, Bool, true, false, not, ◌&&◌, ◌||◌, Option, none, some, List, [], ◌∷◌, ◌==◌,
  nat_eq, list_eq, leb, if◌then◌else◌, sort_by, contains, any, all, find, Result, ok, err, Answer,
  failed, got,
}
use loca.Base.Dict
use loca.Base.Dict.{Dict}
use loca.Protocol.Work.{
  Task, TaskStatus, Goal, GoalStatus, GoalCompletion, task_status_eq, goal_status_eq,
  goal_completion_eq,
}
use loca.Hub.State.{Room}
use loca.Hub.Clock.{next_generation}

-- `panicked` is none of the source's errors: it marks an update that panics in `expect`.
pub data TaskError : Type 0 where
  not_found forbidden storage panicked : TaskError

pub data GoalError : Type 0 where
  not_found active_exists lead_required invalid_tasks storage : GoalError

-- `Vec::dedup`
unfoldable pub dedup : List ℕ → List ℕ
dedup [] = []
dedup (x ∷ []) = x ∷ []
dedup (x ∷ y ∷ ys) = let rest = dedup (y ∷ ys) in if x == y then rest else x ∷ rest

-- The canonical ids of a goal's tasks, or why they are refused.
unfoldable pub normalize_goal_tasks : Room → GoalCompletion → List ℕ → Result (List ℕ) GoalError
normalize_goal_tasks r completion task_ids =
    let ids = dedup (sort_by leb task_ids) in
    if completion == GoalCompletion.manual then ok [] else elim ids [
      | [] ↦ err GoalError.invalid_tasks
      | id ∷ rest ↦
          if any (λ i. not (Dict.contains_key i r.tasks)) (id ∷ rest)
          then err GoalError.invalid_tasks
          else ok (id ∷ rest)
    ]

unfoldable pub is_done : ℕ → Room → Bool
is_done id r = elim (Dict.lookup id r.tasks) [
  | none ↦ false
  | some task ↦ task.status == TaskStatus.done
]

unfoldable pub all_goal_tasks_done : Room → Goal → Bool
unfolding is_done
all_goal_tasks_done r goal =
    goal.completion == GoalCompletion.all_tasks
    && not (goal.task_ids == [])
    && all (λ id. is_done id r) goal.task_ids

unfoldable pub is_active : Goal → Bool
is_active goal = goal.status == GoalStatus.active

unfoldable pub achieve : ℕ → Goal → Goal
achieve now goal = record goal { status = GoalStatus.achieved; closed_at = some now }

unfoldable pub linked_done : Room → Task → Goal → Bool
unfolding is_done
linked_done r task goal =
    all (λ id. if id == task.id then task.status == TaskStatus.done else is_done id r) goal.task_ids

-- The active goal that the task belongs to moves with it, and is achieved with its last task. The
-- first component is the counter of generations. The source takes the goal of the found id out of
-- the map and expects it there: `failed` is the panic where it is not.
unfoldable pub linked_goal_after_task_progress : ℕ → Room → Task → ℕ → ℕ × Answer (Option Goal)
unfolding is_active achieve linked_done
linked_goal_after_task_progress generation r task now =
    elim (find (λ goal. is_active goal && contains task.id goal.task_ids) (Dict.values r.goals)) [
      | none ↦ (generation, got none)
      | some found ↦ elim (Dict.lookup found.id r.goals) [
        | none ↦ (generation, failed)
        | some goal ↦
            let at = next_generation generation now goal.progress_at in
            let moved = record goal { progress_at = at } in
            (at, got (some (if linked_done r task moved then achieve now moved else moved)))
      ]
    ]
