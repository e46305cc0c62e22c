-- ===== src/Routes/Work/Safety.antt =====
-- The handlers of work end well, when the hub's operations keep the property: no panic, and the property.
use loca.Base.{
  ◌≢◌, refl, String, Bool, ◌==◌, string_eq, ◌||◌, ℕ, Answer, Result, ok, err, failed, got,
  map_option,
}
use loca.Protocol.Work.{
  Task, CreateTask, UpdateTask, Goal, CreateGoal, UpdateGoal, WaitState, SetWait,
}
use loca.Hub.State.{Hub}
use loca.Hub.Work.{TaskError, GoalError}
use loca.Hub.Work.Tasks
use loca.Hub.Work.Goals
use loca.Hub.Work.Waits
use loca.Hub.Work.Waits.{WaitError}
use loca.Routes.Handler.{Status}
use loca.Routes.Access.{Request}
use loca.Routes.Access.Safety.{Sessionless}
use loca.Routes.Access.Steps.{Writes, Fine, entered, checked, acting, asking, finishing}
use loca.Routes.Work.Answers.{create_goal-known, set_wait-known, clear_wait-known}
use loca.Routes.Work

module _ (P : Hub → Type 0) (free : Sessionless P) (q : Request) where
  task_created-Fine : (a : Answer Task) → Fine P P (Work.task_created a)
  unfolding Fine
  task_created-Fine (got t) h p = p
  task_created-Fine failed h p = p

  task_updated-Fine :
      (a : Result Task TaskError) → a ≢ err TaskError.panicked → Fine P P (Work.task_updated a)
  unfolding Fine
  task_updated-Fine (ok t) n h p = p
  task_updated-Fine (err TaskError.not_found) n h p = p
  task_updated-Fine (err TaskError.forbidden) n h p = p
  task_updated-Fine (err TaskError.storage) n h p = p
  task_updated-Fine (err TaskError.panicked) n h p = n refl

  pub create_task-Fine :
      (id : String) (body : CreateTask) (saved : Bool)
      → ((h : Hub) (room : String) (body : CreateTask)
          → Writes P room h
          → P (Tasks.create_task h room body q.now saved).0)
      → Fine P P (Work.create_task q id body saved)
  unfolding Work.create_task
  create_task-Fine id body saved op = entered P free q id _ λ room.
      checked P free q room _ Status.bad_request _ (
        acting P free q room body.by _ λ by. asking P free q room by _ λ allowed.
          checked P free q room allowed Status.forbidden _ (
            finishing P free q room (λ _. Unit {0})
              (λ h. Tasks.create_task h room (record body { by = by }) q.now saved) _ (λ h _. tt)
              (λ h w. op h room (record body { by = by }) w) (λ a _. task_created-Fine a)))

  pub update_task-Fine :
      (id : String) (tid : ℕ) (body : UpdateTask) (saved : Bool)
      → ((h : Hub) (room : String) (body : UpdateTask) (is_op : Bool)
          → Writes P room h
          → P (Tasks.update_task h room tid body is_op q.now saved).0)
      → ((h : Hub) (room : String) (body : UpdateTask) (is_op : Bool)
          → Writes P room h
          → (Tasks.update_task h room tid body is_op q.now saved).1 ≢ err TaskError.panicked)
      → Fine P P (Work.update_task q id tid body saved)
  unfolding Work.update_task
  update_task-Fine id tid body saved op known = entered P free q id _ λ room.
      acting P free q room body.by _ λ by. asking P free q room by _ λ is_op.
        finishing P free q room (λ a. a ≢ err TaskError.panicked)
          (λ h. Tasks.update_task h room tid (record body { by = by }) is_op q.now saved) _
          (λ h w. known h room (record body { by = by }) is_op w)
          (λ h w. op h room (record body { by = by }) is_op w) task_updated-Fine

  goal_created-Fine :
      (a : Result Goal GoalError) → a ≢ err GoalError.not_found → Fine P P (Work.goal_created a)
  unfolding Fine
  goal_created-Fine (ok g) n h p = p
  goal_created-Fine (err GoalError.active_exists) n h p = p
  goal_created-Fine (err GoalError.lead_required) n h p = p
  goal_created-Fine (err GoalError.invalid_tasks) n h p = p
  goal_created-Fine (err GoalError.storage) n h p = p
  goal_created-Fine (err GoalError.not_found) n h p = n refl

  goal_updated-Fine : (a : Result Goal GoalError) → Fine P P (Work.goal_updated a)
  unfolding Fine
  goal_updated-Fine (ok g) h p = p
  goal_updated-Fine (err GoalError.active_exists) h p = p
  goal_updated-Fine (err GoalError.lead_required) h p = p
  goal_updated-Fine (err GoalError.invalid_tasks) h p = p
  goal_updated-Fine (err GoalError.storage) h p = p
  goal_updated-Fine (err GoalError.not_found) h p = p

  wait_set-Fine :
      (a : Result WaitState WaitError) → a ≢ err WaitError.not_found → Fine P P (Work.wait_set a)
  unfolding Fine
  wait_set-Fine (ok w) n h p = p
  wait_set-Fine (err WaitError.self_wait) n h p = p
  wait_set-Fine (err WaitError.storage) n h p = p
  wait_set-Fine (err WaitError.not_found) n h p = n refl

  wait_cleared-Fine :
      (a : Result {0, 0} Unit WaitError)
      → a ≢ err WaitError.self_wait
      → Fine P P (Work.wait_cleared a)
  unfolding Fine
  wait_cleared-Fine (ok done) n h p = p
  wait_cleared-Fine (err WaitError.not_found) n h p = p
  wait_cleared-Fine (err WaitError.storage) n h p = p
  wait_cleared-Fine (err WaitError.self_wait) n h p = n refl

  pub create_goal-Fine :
      (id : String) (body : CreateGoal) (saved : Bool)
      → ((h : Hub) (room : String) (body : CreateGoal)
          → Writes P room h
          → P (Goals.create_goal h room body q.now saved).0)
      → Fine P P (Work.create_goal q id body saved)
  unfolding Work.create_goal
  create_goal-Fine id body saved op =
      let sent : String → CreateGoal = λ by. record body {
        outcome = q.trim body.outcome;
        checkpoint = Work.trimmed_checkpoint q.trim body.checkpoint;
        by = by;
      } in
      entered P free q id _ λ room. checked P free q room _ Status.bad_request _ (
        checked P free q room _ Status.bad_request _ (
          acting P free q room body.by _ λ by. asking P free q room by _ λ allowed.
            checked P free q room allowed Status.forbidden _ (
              finishing P free q room (λ a. a ≢ err GoalError.not_found)
                (λ h. Goals.create_goal h room (sent by) q.now saved) _
                (λ h _. create_goal-known h room (sent by) q.now saved)
                (λ h w. op h room (sent by) w) goal_created-Fine)))

  pub update_goal-Fine :
      (id : String) (gid : ℕ) (body : UpdateGoal) (saved : Bool)
      → ((h : Hub) (room : String) (body : UpdateGoal)
          → Writes P room h
          → P (Goals.update_goal h room gid body q.now saved).0)
      → Fine P P (Work.update_goal q id gid body saved)
  unfolding Work.update_goal
  update_goal-Fine id gid body saved op =
      let sent : String → UpdateGoal = λ by. record body {
        outcome = map_option q.trim body.outcome;
        checkpoint = map_option q.trim body.checkpoint;
        by = by;
      } in
      entered P free q id _ λ room. checked P free q room _ Status.bad_request _ (
        checked P free q room _ Status.bad_request _ (
          acting P free q room body.by _ λ by. asking P free q room by _ λ allowed.
            checked P free q room allowed Status.forbidden _ (
              finishing P free q room (λ _. Unit {0})
                (λ h. Goals.update_goal h room gid (sent by) q.now saved) _ (λ h _. tt)
                (λ h w. op h room (sent by) w) λ a _. goal_updated-Fine a)))

  pub set_wait-Fine :
      (id : String) (body : SetWait) (saved : Bool)
      → ((h : Hub) (room : String) (body : SetWait)
          → Writes P room h
          → P (Waits.set_wait h room body q.now saved).0)
      → Fine P P (Work.set_wait q id body saved)
  unfolding Work.set_wait
  set_wait-Fine id body saved op =
      let sent : String → SetWait = λ by. record {
        waiting_for = q.trim body.waiting_for;
        reason = q.trim body.reason;
        by = by;
      } in
      entered P free q id _ λ room. checked P free q room _ Status.bad_request _ (
        acting P free q room body.by _ λ by.
          finishing P free q room (λ a. a ≢ err WaitError.not_found)
            (λ h. Waits.set_wait h room (sent by) q.now saved) _
            (λ h _. set_wait-known h room (sent by) q.now saved) (λ h w. op h room (sent by) w)
            wait_set-Fine)

  pub clear_wait-Fine :
      (id name claimed : String) (saved : Bool)
      → ((h : Hub) (room : String)
          → Writes P room h
          → P (Waits.clear_wait h room name q.now saved).0)
      → Fine P P (Work.clear_wait q id name claimed saved)
  unfolding Work.clear_wait
  clear_wait-Fine id name claimed saved op = entered P free q id _ λ room.
      acting P free q room claimed _ λ by. asking P free q room by _ λ is_op.
        checked P free q room (by == name || is_op) Status.forbidden _ (
          finishing P free q room (λ a. a ≢ err WaitError.self_wait)
            (λ h. Waits.clear_wait h room name q.now saved) _
            (λ h _. clear_wait-known h room name q.now saved) (λ h w. op h room w)
            wait_cleared-Fine)
