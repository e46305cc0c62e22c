-- ===== src/Routes/Work/Invariants.antt =====
-- From what the hub's operations on work keep to what every request about work keeps, and every run of them
-- (crates/server/src/routes/work.rs).
use loca.Base.{◌≢◌, err, String, Bool, string_eq, ℕ}
use loca.Protocol.Work.{CreateTask, UpdateTask, CreateGoal, UpdateGoal, SetWait}
use loca.Hub.State.{Hub}
use loca.Hub.Work.{TaskError}
use loca.Hub.Work.Tasks
use loca.Hub.Work.Goals
use loca.Hub.Work.Waits
use loca.Routes.Handler.{Status, Handler, Run, Safe, next, refused, panicked, reply, and_then}
use loca.Routes.Access.{Request}
use loca.Routes.Access.Safety.{Sessionless}
use loca.Routes.Access.Steps.{Writes, Fine}
use loca.Routes.Work.Safety.{
  create_task-Fine, update_task-Fine, create_goal-Fine, update_goal-Fine, set_wait-Fine,
  clear_wait-Fine,
}
use loca.Routes.Work.Requests.{WorkRequest, serve, status_of, left, Served, Reachable}

-- The hub's operations on work keep a property, in a room that is open for writing.
pub record Kept (P : Hub → Type 0) : Type 0 where
  pub create_task :
      (h : Hub) (room : String) (body : CreateTask) (now : ℕ) (saved : Bool)
      → Writes P room h
      → P (Tasks.create_task h room body now saved).0
  pub update_task :
      (h : Hub) (room : String) (id : ℕ) (body : UpdateTask) (is_op : Bool) (now : ℕ) (saved : Bool)
      → Writes P room h
      → P (Tasks.update_task h room id body is_op now saved).0
  pub settled :
      (h : Hub) (room : String) (id : ℕ) (body : UpdateTask) (is_op : Bool) (now : ℕ) (saved : Bool)
      → Writes P room h
      → (Tasks.update_task h room id body is_op now saved).1 ≢ err TaskError.panicked
  pub create_goal :
      (h : Hub) (room : String) (body : CreateGoal) (now : ℕ) (saved : Bool)
      → Writes P room h
      → P (Goals.create_goal h room body now saved).0
  pub update_goal :
      (h : Hub) (room : String) (id : ℕ) (body : UpdateGoal) (now : ℕ) (saved : Bool)
      → Writes P room h
      → P (Goals.update_goal h room id body now saved).0
  pub set_wait :
      (h : Hub) (room : String) (body : SetWait) (now : ℕ) (saved : Bool)
      → Writes P room h
      → P (Waits.set_wait h room body now saved).0
  pub clear_wait :
      (h : Hub) (room waiter : String) (now : ℕ) (saved : Bool)
      → Writes P room h
      → P (Waits.clear_wait h room waiter now saved).0

module _ (P : Hub → Type 0) (free : Sessionless P) (kept : Kept P) where
  reply-Safe :
      {A : Type 0} (r : Run (Status × A))
      → Safe P (λ _ h'. P h') r
      → Safe P (λ _ h'. P h') (and_then r λ answer. reply answer.0)
  reply-Safe (next a h') p = p
  reply-Safe (refused s h') p = p
  reply-Safe (panicked h') p = elim p [ ]

  status-Safe : {A : Type 0} (m : Handler (Status × A)) → Fine P P m → Fine P P (status_of m)
  unfolding Fine
  status-Safe m fine h p = reply-Safe (m h) (fine h p)

  pub serve-Fine : (q : Request) (w : WorkRequest) (saved : Bool) → Fine P P (serve q w saved)
  unfolding serve
  serve-Fine q (WorkRequest.create_task id body) saved = status-Safe _ (
      create_task-Fine P free q id body saved
        λ h room body w. kept.create_task h room body q.now saved w)
  serve-Fine q (WorkRequest.update_task id tid body) saved = status-Safe _ (
      update_task-Fine P free q id tid body saved
        (λ h room body is_op w. kept.update_task h room tid body is_op q.now saved w)
        λ h room body is_op w. kept.settled h room tid body is_op q.now saved w)
  serve-Fine q (WorkRequest.create_goal id body) saved = status-Safe _ (
      create_goal-Fine P free q id body saved
        λ h room body w. kept.create_goal h room body q.now saved w)
  serve-Fine q (WorkRequest.update_goal id gid body) saved = status-Safe _ (
      update_goal-Fine P free q id gid body saved
        λ h room body w. kept.update_goal h room gid body q.now saved w)
  serve-Fine q (WorkRequest.set_wait id body) saved = status-Safe _ (
      set_wait-Fine P free q id body saved λ h room body w. kept.set_wait h room body q.now saved w)
  serve-Fine q (WorkRequest.clear_wait id name claimed) saved =
      clear_wait-Fine P free q id name claimed saved
        λ h room w. kept.clear_wait h room name q.now saved w

  Safe-left : {A : Type 0} (r : Run A) → Safe P (λ _ h'. P h') r → P (left r)
  Safe-left (next a h) p = p
  Safe-left (refused s h) p = p
  Safe-left (panicked h) p = elim p [ ]

  Served-kept : {h h' : Hub} → Served h h' → P h → P h'
  unfolding Fine
  Served-kept {h} (Served.served q w saved) p =
      Safe-left (serve q w saved h) (serve-Fine q w saved h p)

  pub Reachable-kept : {h h' : Hub} → Reachable h h' → P h → P h'
  Reachable-kept Reachable.start p = p
  Reachable-kept (Reachable.step r s) p = Served-kept s (Reachable-kept r p)

  Safe-quiet : {A : Type 0} (r : Run A) → Safe P (λ _ h'. P h') r → (h : Hub) → r ≢ panicked h
  Safe-quiet (next a h') p h e = cc
  Safe-quiet (refused s h') p h e = cc
  Safe-quiet (panicked h') p h e = elim p [ ]

  pub serve_kept_quiet :
      (q : Request) (w : WorkRequest) (saved : Bool) (h h' : Hub)
      → P h
      → serve q w saved h ≢ panicked h'
  unfolding Fine
  serve_kept_quiet q w saved h h' p = Safe-quiet (serve q w saved h) (serve-Fine q w saved h p) h'
