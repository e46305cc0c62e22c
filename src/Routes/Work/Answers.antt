-- ===== src/Routes/Work/Answers.antt =====
-- Answers of the hub that the handlers of work hold for impossible.
use loca.Base.{◌≢◌, arith, String, Bool, ℕ, err}
use loca.Protocol.Work.{CreateGoal, SetWait}
use loca.Hub.State.{Hub}
use loca.Hub.Work.{GoalError, normalize_goal_tasks}
use loca.Hub.Work.Goals
use loca.Hub.Work.Waits
use loca.Hub.Work.Waits.{WaitError}

pub create_goal-known :
    (h : Hub) (room : String) (body : CreateGoal) (now : ℕ) (saved : Bool)
    → (Goals.create_goal h room body now saved).1 ≢ err GoalError.not_found
unfolding Goals.create_goal normalize_goal_tasks
create_goal-known h room body now saved e = ground arith

pub set_wait-known :
    (h : Hub) (room : String) (body : SetWait) (now : ℕ) (saved : Bool)
    → (Waits.set_wait h room body now saved).1 ≢ err WaitError.not_found
unfolding Waits.set_wait
set_wait-known h room body now saved e = ground arith

pub clear_wait-known :
    (h : Hub) (room waiter : String) (now : ℕ) (saved : Bool)
    → (Waits.clear_wait h room waiter now saved).1 ≢ err WaitError.self_wait
unfolding Waits.clear_wait
clear_wait-known h room waiter now saved e = ground arith
