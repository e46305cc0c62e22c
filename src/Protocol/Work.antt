-- ===== src/Protocol/Work.antt =====
-- Tasks, goals and waits (crates/protocol/src/lib.rs). `Open` of the source is `opened` here,
-- since `open` is reserved.
use loca.Base.{ℕ, String, ◌≡◌, ◌↔◌, Bool, true, false, Option, List, arith, Eq}

pub data TaskStatus : Type 0 where
  opened taken done cancelled : TaskStatus

abbrev pub task_status_beq : TaskStatus → TaskStatus → Bool
task_status_beq TaskStatus.opened TaskStatus.opened = true
task_status_beq TaskStatus.taken TaskStatus.taken = true
task_status_beq TaskStatus.done TaskStatus.done = true
task_status_beq TaskStatus.cancelled TaskStatus.cancelled = true
task_status_beq _ _ = false

pub task_status_beq_iff : (a b : TaskStatus) → (task_status_beq a b ≡ true) ↔ (a ≡ b)
task_status_beq_iff a b = ground arith

instance abbrev pub task_status_eq : Eq TaskStatus
task_status_eq = record { equals = task_status_beq; equals_iff = task_status_beq_iff }

pub record Task : Type 0 where
  pub id : ℕ
  pub room : String
  pub title : String
  pub created_by : String
  pub from_message : Option ℕ
  pub assigned_to : Option String
  pub status : TaskStatus
  pub created_at : ℕ
  pub progress_at : ℕ
  pub closed_at : Option ℕ

pub record CreateTask : Type 0 where
  pub title : String
  pub from_message : Option ℕ
  pub assigned_to : Option String
  pub by : String

pub record UpdateTask : Type 0 where
  pub status : Option TaskStatus
  pub assigned_to : Option String
  pub by : String

pub data GoalCompletion : Type 0 where
  manual all_tasks : GoalCompletion

abbrev pub goal_completion_beq : GoalCompletion → GoalCompletion → Bool
goal_completion_beq GoalCompletion.manual GoalCompletion.manual = true
goal_completion_beq GoalCompletion.all_tasks GoalCompletion.all_tasks = true
goal_completion_beq _ _ = false

pub goal_completion_beq_iff : (a b : GoalCompletion) → (goal_completion_beq a b ≡ true) ↔ (a ≡ b)
goal_completion_beq_iff a b = ground arith

instance abbrev pub goal_completion_eq : Eq GoalCompletion
goal_completion_eq = record { equals = goal_completion_beq; equals_iff = goal_completion_beq_iff }

pub data GoalStatus : Type 0 where
  active achieved cancelled : GoalStatus

abbrev pub goal_status_beq : GoalStatus → GoalStatus → Bool
goal_status_beq GoalStatus.active GoalStatus.active = true
goal_status_beq GoalStatus.achieved GoalStatus.achieved = true
goal_status_beq GoalStatus.cancelled GoalStatus.cancelled = true
goal_status_beq _ _ = false

pub goal_status_beq_iff : (a b : GoalStatus) → (goal_status_beq a b ≡ true) ↔ (a ≡ b)
goal_status_beq_iff a b = ground arith

instance abbrev pub goal_status_eq : Eq GoalStatus
goal_status_eq = record { equals = goal_status_beq; equals_iff = goal_status_beq_iff }

pub record Goal : Type 0 where
  pub id : ℕ
  pub room : String
  pub outcome : String
  pub checkpoint : Option String
  pub stale_after_secs : Option ℕ
  pub created_by : String
  pub completion : GoalCompletion
  pub task_ids : List ℕ
  pub status : GoalStatus
  pub created_at : ℕ
  pub progress_at : ℕ
  pub closed_at : Option ℕ

pub record CreateGoal : Type 0 where
  pub outcome : String
  pub checkpoint : Option String
  pub stale_after_secs : Option ℕ
  pub completion : GoalCompletion
  pub task_ids : List ℕ
  pub by : String

-- `stale_after_secs` distinguishes a missing field from a null.
pub record UpdateGoal : Type 0 where
  pub outcome : Option String
  pub checkpoint : Option String
  pub stale_after_secs : Option (Option ℕ)
  pub completion : Option GoalCompletion
  pub task_ids : Option (List ℕ)
  pub status : Option GoalStatus
  pub by : String

pub record WaitState : Type 0 where
  pub room : String
  pub waiter : String
  pub waiting_for : String
  pub reason : String
  pub since : ℕ
  pub last_signal_at : Option ℕ
  pub signal_count : ℕ

pub record SetWait : Type 0 where
  pub waiting_for : String
  pub reason : String
  pub by : String
