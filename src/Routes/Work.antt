-- ===== src/Routes/Work.antt =====
-- The handlers of tasks, goals and waits (crates/server/src/routes/work.rs). `saved` says whether the
-- store accepts the change.
pub mod Answers
pub mod Safety
pub mod Requests
pub mod Invariants
pub mod Order
pub mod Declaring
use loca.Base.{
  ℕ, String, Bool, true, false, not, ◌&&◌, ◌||◌, Option, none, some, ◌==◌, string_eq, if◌then◌else◌,
  unwrap_or, is_some, map_option, leb, Result, ok, err, Answer, failed, got,
}
use loca.Protocol.Work.{
  Task, CreateTask, UpdateTask, Goal, CreateGoal, UpdateGoal, WaitState, SetWait,
}
use loca.Hub.State.{Hub}
use loca.Hub.Work.{TaskError, GoalError}
use loca.Hub.Work.Tasks
use loca.Hub.Work.Goals
use loca.Hub.Work.Waits
use loca.Hub.Work.Waits.{WaitError}
use loca.Routes.Handler.{Status, Handler, reply, refuse, panic, guard, call, unwrap, ◌>>=◌, ◌>>◌}
use loca.Routes.Access.{Request, enter, writable, actor, operator}

abbrev pub task_created : Answer Task → Handler (Status × Task)
task_created (got t) = reply (Status.created, t)
task_created failed = refuse Status.service_unavailable

unfoldable pub create_task : Request → String → CreateTask → Bool → Handler (Status × Task)
unfolding enter writable actor operator Tasks.create_task
create_task q id body saved = do
  room ← enter q id
  writable room
  guard (not (q.trim body.title == "")) Status.bad_request
  by ← actor q body.by
  allowed ← operator q room by
  guard allowed Status.forbidden
  made ← call (λ h. Tasks.create_task h room (record body { by = by }) q.now saved)
  task_created made

abbrev pub task_updated : Result Task TaskError → Handler (Status × Task)
task_updated (ok t) = reply (Status.success, t)
task_updated (err TaskError.not_found) = refuse Status.not_found
task_updated (err TaskError.forbidden) = refuse Status.forbidden
task_updated (err TaskError.storage) = refuse Status.service_unavailable
task_updated (err TaskError.panicked) = panic

unfoldable pub update_task : Request → String → ℕ → UpdateTask → Bool → Handler (Status × Task)
unfolding enter writable actor operator Tasks.update_task
update_task q id tid body saved = do
  room ← enter q id
  writable room
  by ← actor q body.by
  is_op ← operator q room by
  made ← call (λ h. Tasks.update_task h room tid (record body { by = by }) is_op q.now saved)
  task_updated made

-- Thirty days
abbrev pub longest_stale_secs : ℕ
longest_stale_secs = 2592000

abbrev pub is_stale_allowed : Option ℕ → Bool
is_stale_allowed none = true
is_stale_allowed (some secs) = leb secs longest_stale_secs

-- `map(trim).filter(not empty)`
abbrev pub trimmed_checkpoint : (String → String) → Option String → Option String
trimmed_checkpoint trim none = none
trimmed_checkpoint trim (some c) = if trim c == "" then none else some (trim c)

abbrev pub goal_created : Result Goal GoalError → Handler (Status × Goal)
goal_created (ok g) = reply (Status.created, g)
goal_created (err GoalError.active_exists) = refuse Status.conflict
goal_created (err GoalError.lead_required) = refuse Status.conflict
goal_created (err GoalError.invalid_tasks) = refuse Status.bad_request
goal_created (err GoalError.storage) = refuse Status.service_unavailable
goal_created (err GoalError.not_found) = panic

unfoldable pub create_goal : Request → String → CreateGoal → Bool → Handler (Status × Goal)
unfolding enter writable actor operator Goals.create_goal
create_goal q id body saved = do
  room ← enter q id
  writable room
  guard (not (q.trim body.outcome == "")) Status.bad_request
  guard (is_stale_allowed body.stale_after_secs) Status.bad_request
  by ← actor q body.by
  allowed ← operator q room by
  guard allowed Status.forbidden
  made ← call (λ h.
      Goals.create_goal h room
        (record body {
          outcome = q.trim body.outcome;
          checkpoint = trimmed_checkpoint q.trim body.checkpoint;
          by = by;
        })
        q.now saved)
  goal_created made

abbrev pub goal_updated : Result Goal GoalError → Handler (Status × Goal)
goal_updated (ok g) = reply (Status.success, g)
goal_updated (err GoalError.not_found) = refuse Status.not_found
goal_updated (err GoalError.active_exists) = refuse Status.conflict
goal_updated (err GoalError.lead_required) = refuse Status.conflict
goal_updated (err GoalError.invalid_tasks) = refuse Status.bad_request
goal_updated (err GoalError.storage) = refuse Status.service_unavailable

-- A new outcome may not be empty.
abbrev pub is_outcome_allowed : (String → String) → Option String → Bool
is_outcome_allowed trim none = true
is_outcome_allowed trim (some o) = not (trim o == "")

unfoldable pub update_goal : Request → String → ℕ → UpdateGoal → Bool → Handler (Status × Goal)
unfolding enter writable actor operator Goals.update_goal
update_goal q id gid body saved = do
  room ← enter q id
  writable room
  guard (is_outcome_allowed q.trim body.outcome) Status.bad_request
  guard (is_stale_allowed (unwrap_or none body.stale_after_secs)) Status.bad_request
  by ← actor q body.by
  allowed ← operator q room by
  guard allowed Status.forbidden
  made ← call (λ h.
      Goals.update_goal h room gid
        (record body {
          outcome = map_option q.trim body.outcome;
          checkpoint = map_option q.trim body.checkpoint;
          by = by;
        })
        q.now saved)
  goal_updated made

abbrev pub wait_set : Result WaitState WaitError → Handler (Status × WaitState)
wait_set (ok w) = reply (Status.created, w)
wait_set (err WaitError.self_wait) = refuse Status.bad_request
wait_set (err WaitError.storage) = refuse Status.service_unavailable
wait_set (err WaitError.not_found) = panic

unfoldable pub set_wait : Request → String → SetWait → Bool → Handler (Status × WaitState)
unfolding enter writable actor Waits.set_wait
set_wait q id body saved = do
  room ← enter q id
  writable room
  guard (not (q.trim body.waiting_for == "" || q.trim body.reason == "")) Status.bad_request
  by ← actor q body.by
  made ← call (λ h.
      Waits.set_wait h room
        (record { waiting_for = q.trim body.waiting_for; reason = q.trim body.reason; by = by })
        q.now saved)
  wait_set made

abbrev pub wait_cleared : Result {0, 0} Unit WaitError → Handler Status
wait_cleared (ok done) = reply Status.no_content
wait_cleared (err WaitError.not_found) = refuse Status.not_found
wait_cleared (err WaitError.storage) = refuse Status.service_unavailable
wait_cleared (err WaitError.self_wait) = panic

unfoldable pub clear_wait : Request → String → String → String → Bool → Handler Status
unfolding enter writable actor operator Waits.clear_wait
clear_wait q id name claimed saved = do
  room ← enter q id
  writable room
  by ← actor q claimed
  is_op ← operator q room by
  guard (by == name || is_op) Status.forbidden
  made ← call (λ h. Waits.clear_wait h room name q.now saved)
  wait_cleared made
