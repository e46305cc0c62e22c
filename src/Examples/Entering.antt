-- ===== src/Examples/Entering.antt =====
-- The door, the end of a membership, and requests about work, on the example.
use loca.Base.{◌≡◌, ◌≢◌, ◌↔◌, refl, true, none, some, ◌∷◌, got, string_eq, contains}
use loca.Base.Dict
use loca.Base.Dict.{AllEntries}
use loca.Protocol.Work.{Task, TaskStatus}
use loca.Hub.State.{Hub}
use loca.Hub.Invites.Revocation.{Filed}
use loca.Hub.Door.{EnterDecision, enter_decision}
use loca.Hub.Door.Ruling.{Ruling, enter_decision-Ruling}
use loca.Hub.Members.{revoke_member}
use loca.Hub.Members.Revocation.{Gone, revoke_member-Gone}
use loca.Hub.Members.Shut.{Closed, revoke_member-denied}
use loca.Hub.Work.Tasks
use loca.Routes.Handler.{Status, next, panicked}
use loca.Routes.Work
use loca.Routes.Work.Requests.{WorkRequest, serve, left, Reachable, Served}
use loca.Routes.Work.Order.{GoalsOk, Reachable-GoalsOk, serve_quiet}
use loca.Routes.Work.Declaring.{TaskMade, create_task-TaskMade}
use loca.Examples.Working.{finish, server-HubGoals, server-HubLed}
use loca.Examples.Data.{server, davet, register, asks, more}

-- The server with a davet of its member.
abbrev called : Hub
called = record server { invites = ("t3", davet "t3" "m3" "cy") ∷ server.invites }

called-Filed : AllEntries Filed called.invites
called-Filed = (refl, (refl, (refl, tt)))

enter_decision-Ruling_example :
    (enter_decision register server "atelier" none (some "t1") none none ≡ EnterDecision.allowed)
    ↔ Ruling register server "atelier" none (some "t1") none none EnterDecision.allowed
enter_decision-Ruling_example =
    enter_decision-Ruling register server "atelier" none (some "t1") none none EnterDecision.allowed

abbrev parted : Hub
parted = (revoke_member called "m3" true).0

revokes : revoke_member called "m3" true ≡ (parted, got true)
unfolding revoke_member Dict.contains_key
revokes = refl

revoke_member-Gone_example : Gone "m3" parted
revoke_member-Gone_example = revoke_member-Gone called parted "m3" true called-Filed revokes

called-Closed : Closed register called "t3"
called-Closed = record {
  no_key = refl;
  by_davet = refl;
  not_admin = refl;
  persistent = refl;
  no_principal = refl;
}

files : Dict.lookup "t3" called.invites ≡ some (davet "t3" "m3" "cy")
unfolding Dict.lookup
files = refl

revoke_member-denied_example :
    enter_decision register parted "atelier" none (some "t3") none none ≢ EnterDecision.allowed
revoke_member-denied_example =
    revoke_member-denied register called parted "m3" "t3" "atelier" (davet "t3" "m3" "cy") none true
      called-Filed revokes files refl called-Closed

abbrev task_filed : Hub
task_filed = (Tasks.create_task server "atelier" more asks.now true).0

abbrev more_task : Task
more_task = record {
  id = 3;
  room = "atelier";
  title = "more";
  created_by = "ada";
  from_message = none;
  assigned_to = none;
  status = TaskStatus.opened;
  created_at = 60;
  progress_at = 60;
  closed_at = none;
}

creates :
    Work.create_task asks "atelier" more true server ≡ next (Status.created, more_task) task_filed
unfolding Work.create_task Tasks.create_task Dict.lookup contains
creates = refl

create_task-TaskMade_example :
    TaskMade asks "atelier" server more true (Status.created, more_task) task_filed
create_task-TaskMade_example =
    create_task-TaskMade asks "atelier" server task_filed more true (Status.created, more_task)
      creates

server-GoalsOk : GoalsOk server
server-GoalsOk = record { single = server-HubGoals; led = server-HubLed }

serve_quiet_example :
    serve asks (WorkRequest.update_task "atelier" 1 finish) true server ≢ panicked server
serve_quiet_example =
    serve_quiet asks (WorkRequest.update_task "atelier" 1 finish) true server server server-GoalsOk

Reachable-GoalsOk_example :
    GoalsOk (left (serve asks (WorkRequest.create_task "atelier" more) true server))
Reachable-GoalsOk_example =
    Reachable-GoalsOk server
      (left (serve asks (WorkRequest.create_task "atelier" more) true server)) server-GoalsOk
      (Reachable.step Reachable.start
        (Served.served asks (WorkRequest.create_task "atelier" more) true))
