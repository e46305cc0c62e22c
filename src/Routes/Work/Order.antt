-- ===== src/Routes/Work/Order.antt =====
-- The goals of every room, under any run of requests about work.
use loca.Base.{◌≡◌, ◌≢◌, Bool, refl, sym, subst, String, any}
use loca.Protocol.Chat.{ChatMode}
use loca.Hub.State.{Hub, Room, new_room}
use loca.Hub.Settings.{has_active_goal}
use loca.Hub.Work.Frames.{create_task-kept, set_wait-kept, clear_wait-kept}
use loca.Hub.Work.Single.{OneActive, RoomGoals, HubGoals, new_room-RoomGoals, create_goal-HubGoals}
use loca.Hub.Work.Single.Tasks.{update_task-HubGoals, update_task_settled}
use loca.Hub.Work.Single.Updates.{update_goal-HubGoals}
use loca.Hub.Work.Leads.{RoomLed, HubLed, create_goal-HubLed, update_goal-HubLed}
use loca.Hub.Work.Leads.Tasks.{update_task-HubLed}
use loca.Routes.Handler.{panicked}
use loca.Routes.Access.{Request}
use loca.Routes.Work.Requests.{WorkRequest, serve, Reachable}
use loca.Routes.Work.Invariants.{Kept, Reachable-kept, serve_kept_quiet}

RoomGoals-goals :
    (name : String) (r r' : Room)
    → r.goals ≡ r'.goals
    → r.settings ≡ r'.settings
    → RoomGoals name r
    → RoomGoals name r'
RoomGoals-goals name r r' e f p = subst OneActive e p

RoomLed-goals :
    (name : String) (r r' : Room)
    → r.goals ≡ r'.goals
    → r.settings ≡ r'.settings
    → RoomLed name r
    → RoomLed name r'
unfolding has_active_goal
RoomLed-goals name r r' e f p = rw (sym e, sym f) p

new_room-RoomLed :
    (name : String) (h : Hub) → RoomLed name (new_room ChatMode.free h.default_settings)
unfolding new_room has_active_goal any
new_room-RoomLed name h = refl

-- The goals of every room are in order.
pub record GoalsOk (h : Hub) : Type 0 where
  pub single : HubGoals h
  pub led : HubLed h

GoalsOk-Kept : Kept GoalsOk
GoalsOk-Kept = record {
  create_task = λ h room body now saved w. record {
    single =
        create_task-kept RoomGoals RoomGoals-goals new_room-RoomGoals h room body now saved
          w.1.single;
    led = create_task-kept RoomLed RoomLed-goals new_room-RoomLed h room body now saved w.1.led;
  };
  update_task = λ h room id body is_op now saved w. record {
    single = update_task-HubGoals h room id body is_op now saved w.1.single;
    led = update_task-HubLed h room id body is_op now saved w.1.led;
  };
  settled = λ h room id body is_op now saved w.
      update_task_settled h room id body is_op now saved w.1.single;
  create_goal = λ h room body now saved w. record {
    single = create_goal-HubGoals h room body now saved w.1.single;
    led = create_goal-HubLed h room body now saved w.1.led;
  };
  update_goal = λ h room id body now saved w. record {
    single = update_goal-HubGoals h room id body now saved w.1.single;
    led = update_goal-HubLed h room id body now saved w.1.led;
  };
  set_wait = λ h room body now saved w. record {
    single =
        set_wait-kept RoomGoals RoomGoals-goals new_room-RoomGoals h room body now saved w.1.single;
    led = set_wait-kept RoomLed RoomLed-goals new_room-RoomLed h room body now saved w.1.led;
  };
  clear_wait = λ h room waiter now saved w. record {
    single =
        clear_wait-kept RoomGoals RoomGoals-goals new_room-RoomGoals h room waiter now saved
          w.1.single;
    led = clear_wait-kept RoomLed RoomLed-goals new_room-RoomLed h room waiter now saved w.1.led;
  };
}

-- Whatever requests about work arrive, in any order and from anyone, and whatever the store answers, every
-- room keeps its goals under their ids with one active at most, and somebody in the lead of an active one.
pub Reachable-GoalsOk : (h h' : Hub) → GoalsOk h → Reachable h h' → GoalsOk h'
Reachable-GoalsOk h h' ok r =
    Reachable-kept GoalsOk (λ h s p. record { single = p.single; led = p.led }) GoalsOk-Kept r ok

-- Where every room keeps its goals under their ids with one active at most and somebody in the lead of an
-- active one, no request about work makes a handler panic, whatever it asks for and whatever the store answers:
-- the answers that the handlers take for impossible never come, and the goal that moves with a task is there.
pub serve_quiet :
    (q : Request) (w : WorkRequest) (saved : Bool) (h h' : Hub)
    → GoalsOk h
    → serve q w saved h ≢ panicked h'
serve_quiet q w saved h h' ok =
    serve_kept_quiet GoalsOk (λ h s p. record { single = p.single; led = p.led }) GoalsOk-Kept q w
      saved h h' ok
