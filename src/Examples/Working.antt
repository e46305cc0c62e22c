-- ===== src/Examples/Working.antt =====
-- Goals, tasks and waits on the example.
use loca.Base.{
  ◌≡◌, refl, String, true, false, none, some, List, [], ◌∷◌, string_eq, nat_eq, arith, ok, sat_add,
  contains, any, find, contains,
}
use loca.Base.Dict
use loca.Protocol.Work.{
  Task, TaskStatus, UpdateTask, GoalStatus, GoalCompletion, CreateGoal, UpdateGoal,
}
use loca.Hub.Clock.{next_generation}
use loca.Hub.Work.{is_active}
use loca.Hub.Work.{linked_goal_after_task_progress}
use loca.Hub.Work.Tasks.{update_task}
use loca.Hub.Work.Goals.{update_goal}
use loca.Hub.Work.Authority.{Own, Progress, update_task-Own, update_task-Progress}
use loca.Hub.Work.Single.{OneActive, HubGoals}
use loca.Hub.Work.Single.Updates.{update_goal-HubGoals}
use loca.Hub.Work.Single.Tasks.{update_task-HubGoals}
use loca.Hub.Settings.{has_active_goal, set_lead}
use loca.Hub.Work.Leads.{HubLed, set_lead-HubLed}
use loca.Hub.Work.Waits.{wait_cycle_after, set_wait}
use loca.Hub.Work.Waits.Waiting.{HubWaits, set_wait-HubWaits}
use loca.Hub.Work.Waits.Cycles.{Cycle, wait_cycle_after_total, wait_cycle_after-Cycle}
use loca.Examples.Data.{atelier, server, plan, wait}

atelier-OneActive : OneActive atelier.goals
unfolding Dict.lookup is_active
atelier-OneActive = record {
  filed = (refl, tt);
  keyed = λ k g e. ground (arith, nat_eq.equals_iff 1 k);
  single = λ i j a b ea eb aa ab. ground (arith, nat_eq.equals_iff 1 i, nat_eq.equals_iff 1 j);
}

pub server-HubGoals : HubGoals server
server-HubGoals = (atelier-OneActive, tt)

abbrev pub finish : UpdateTask
finish = record { status = some TaskStatus.done; assigned_to = some "bot"; by = "bot" }

update_task-HubGoals_example : HubGoals (update_task server "atelier" 1 finish false 50 true).0
update_task-HubGoals_example =
    update_task-HubGoals server "atelier" 1 finish false 50 true server-HubGoals

abbrev finished : Task
finished = record plan {
  assigned_to = some "bot";
  status = TaskStatus.done;
  progress_at = 50;
  closed_at = some 50;
}

at_atelier : Dict.lookup "atelier" server.rooms ≡ some atelier
unfolding Dict.lookup
at_atelier = refl

at_plan : Dict.lookup 1 atelier.tasks ≡ some plan
unfolding Dict.lookup
at_plan = refl

finishes : (update_task server "atelier" 1 finish false 50 true).1 ≡ ok finished
unfolding update_task Dict.lookup next_generation sat_add linked_goal_after_task_progress find
    contains
finishes = refl

update_task-Own_example : Own "bot" plan finished
update_task-Own_example =
    update_task-Own server "atelier" atelier 1 plan finished finish 50 true at_atelier at_plan
      finishes

update_task-Progress_example : Progress plan finished
update_task-Progress_example =
    update_task-Progress server "atelier" atelier 1 plan finished finish false 50 true (omega arith)
      (omega arith) at_atelier at_plan finishes

abbrev another : CreateGoal
another = record {
  outcome = "celebrate";
  checkpoint = none;
  stale_after_secs = none;
  completion = GoalCompletion.manual;
  task_ids = [];
  by = "ada";
}

abbrev cancel : UpdateGoal
cancel = record {
  outcome = none;
  checkpoint = none;
  stale_after_secs = none;
  completion = none;
  task_ids = none;
  status = some GoalStatus.cancelled;
  by = "ada";
}

update_goal-HubGoals_example : HubGoals (update_goal server "atelier" 1 cancel 70 true).0
update_goal-HubGoals_example =
    update_goal-HubGoals server "atelier" 1 cancel 70 true server-HubGoals

wait_cycle_after_total_example :
    (found : List String) × (wait_cycle_after atelier.waits (wait "ada" "bot") ≡ some found)
wait_cycle_after_total_example = wait_cycle_after_total atelier.waits (wait "ada" "bot")

deadlock : wait_cycle_after atelier.waits (wait "ada" "bot") ≡ some ("ada" ∷ "bot" ∷ "cy" ∷ [])
unfolding wait_cycle_after contains Dict.lookup
deadlock = refl

wait_cycle_after-Cycle_example : Cycle atelier.waits (wait "ada" "bot") ("ada" ∷ "bot" ∷ "cy" ∷ [])
wait_cycle_after-Cycle_example =
    wait_cycle_after-Cycle atelier.waits (wait "ada" "bot") "ada" ("bot" ∷ "cy" ∷ []) deadlock

server-HubWaits : HubWaits server
server-HubWaits =
    ((record { filed = refl; other = refl }, (record { filed = refl; other = refl }, tt)), tt)

set_wait-HubWaits_example :
    HubWaits
      (set_wait server "atelier"
        (record { waiting_for = "bot"; reason = "review"; by = "ada" })
        80
        true).0
set_wait-HubWaits_example =
    set_wait-HubWaits server "atelier"
      (record { waiting_for = "bot"; reason = "review"; by = "ada" }) 80 true server-HubWaits

pub server-HubLed : HubLed server
unfolding has_active_goal any
server-HubLed = (refl, tt)

set_lead-HubLed_example : HubLed (set_lead server "atelier" none "ada" 95 true).0
set_lead-HubLed_example = set_lead-HubLed server "atelier" none "ada" 95 true server-HubLed
