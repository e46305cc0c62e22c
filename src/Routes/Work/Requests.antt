-- ===== src/Routes/Work/Requests.antt =====
-- Any request about work, and any run of them.
use loca.Base.{String, Bool, ℕ}
use loca.Protocol.Work.{CreateTask, UpdateTask, CreateGoal, UpdateGoal, SetWait}
use loca.Hub.State.{Hub}
use loca.Routes.Handler.{Status, Handler, Run, next, refused, panicked, reply, ◌>>=◌}
use loca.Routes.Access.{Request}
use loca.Routes.Work

pub data WorkRequest : Type 0 where
  create_task : String → CreateTask → WorkRequest
  update_task : String → ℕ → UpdateTask → WorkRequest
  create_goal : String → CreateGoal → WorkRequest
  update_goal : String → ℕ → UpdateGoal → WorkRequest
  set_wait : String → SetWait → WorkRequest
  clear_wait : String → String → String → WorkRequest

-- The status that a handler answers with.
abbrev pub status_of : {A : Type 0} → Handler (Status × A) → Handler Status
status_of m = m >>= λ answer. reply answer.0

unfoldable pub serve : Request → WorkRequest → Bool → Handler Status
serve q (WorkRequest.create_task id body) saved = status_of (Work.create_task q id body saved)
serve q (WorkRequest.update_task id tid body) saved =
    status_of (Work.update_task q id tid body saved)
serve q (WorkRequest.create_goal id body) saved = status_of (Work.create_goal q id body saved)
serve q (WorkRequest.update_goal id gid body) saved =
    status_of (Work.update_goal q id gid body saved)
serve q (WorkRequest.set_wait id body) saved = status_of (Work.set_wait q id body saved)
serve q (WorkRequest.clear_wait id name claimed) saved = Work.clear_wait q id name claimed saved

-- The hub that a run leaves.
abbrev pub left : {A : Type 0} → Run A → Hub
left (next a h) = h
left (refused s h) = h
left (panicked h) = h

-- One request leads from a hub to the next.
pub data Served (h : Hub) : Hub → Type 0 where
  served : (q : Request) (w : WorkRequest) (saved : Bool) → Served h (left (serve q w saved h))

-- The hubs that requests about work lead to.
pub data Reachable (h : Hub) : Hub → Type 0 where
  start : Reachable h h
  step : {h₁ h₂ : Hub} → Reachable h h₁ → Served h₁ h₂ → Reachable h h₂
