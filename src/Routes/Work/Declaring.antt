-- ===== src/Routes/Work/Declaring.antt =====
-- Tasks and goals are declared by those who may.
use loca.Base.{
  ◌≡◌, ◌≢◌, refl, none, map_option, unwrap_or, String, Bool, true, false, not, ◌==◌, string_eq, ℕ,
  Answer, failed, got, Result, ok, err, arith,
}
use loca.Protocol.Work.{Task, CreateTask, Goal, CreateGoal, UpdateGoal}
use loca.Hub.State.{Hub}
use loca.Hub.Work.{GoalError}
use loca.Hub.Work.Tasks
use loca.Hub.Work.Goals
use loca.Routes.Handler.{Status, next}
use loca.Routes.Access.{Request}
use loca.Routes.Access.Settled.{settle}
use loca.Routes.Access.Authority.{Declared, Goes, Goes-next, passing, opening, declaring}
use loca.Routes.Work.Answers.{create_goal-known}
use loca.Routes.Work

task_created-Goes :
    (R : Status × Task → Hub → Type 0) (r : Hub × Answer Task)
    → ((t : Task) → r ≡ (r.0, got t) → R (Status.created, t) r.0)
    → Goes R (Work.task_created r.1 r.0)
task_created-Goes R (h, got t) made = made t refl
task_created-Goes R (h, failed) made = tt

goal_created-Goes :
    (R : Status × Goal → Hub → Type 0) (r : Hub × Result Goal GoalError)
    → r.1 ≢ err GoalError.not_found
    → ((g : Goal) → r ≡ (r.0, ok g) → R (Status.created, g) r.0)
    → Goes R (Work.goal_created r.1 r.0)
goal_created-Goes R (h, ok g) known made = made g refl
goal_created-Goes R (h, err GoalError.active_exists) known made = tt
goal_created-Goes R (h, err GoalError.lead_required) known made = tt
goal_created-Goes R (h, err GoalError.invalid_tasks) known made = tt
goal_created-Goes R (h, err GoalError.storage) known made = tt
goal_created-Goes R (h, err GoalError.not_found) known made = known refl

goal_updated-Goes :
    (R : Status × Goal → Hub → Type 0) (r : Hub × Result Goal GoalError)
    → ((g : Goal) → r ≡ (r.0, ok g) → R (Status.success, g) r.0)
    → Goes R (Work.goal_updated r.1 r.0)
goal_updated-Goes R (h, ok g) made = made g refl
goal_updated-Goes R (h, err GoalError.active_exists) made = tt
goal_updated-Goes R (h, err GoalError.lead_required) made = tt
goal_updated-Goes R (h, err GoalError.invalid_tasks) made = tt
goal_updated-Goes R (h, err GoalError.storage) made = tt
goal_updated-Goes R (h, err GoalError.not_found) made = tt

module _ (q : Request) (id : String) (h : Hub) where
  -- A task that was made: by whom, and how.
  pub record TaskMade (body : CreateTask) (saved : Bool) (answer : Status × Task) (h' : Hub)
      : Type 0 where
    pub by : String
    pub declared : Declared q h id body.by by
    pub titled : (q.trim body.title == "") ≡ false
    pub status : answer.0 ≡ Status.created
    pub made :
        Tasks.create_task (settle q h) id (record body { by = by }) q.now saved ≡ (h', got answer.1)

  create_task-Goes :
      (body : CreateTask) (saved : Bool)
      → Goes (TaskMade body saved) (Work.create_task q id body saved h)
  unfolding Work.create_task
  create_task-Goes body saved =
      let R = TaskMade body saved in
      opening R q h id _ λ opened.
        passing R (not (q.trim body.title == "")) Status.bad_request _ (settle q h) λ titled.
          declaring R q h id body.by _ opened λ by declared.
            task_created-Goes R
              (Tasks.create_task (settle q h) id (record body { by = by }) q.now saved)
              λ t e. record {
                by = by;
                declared = declared;
                titled = ground arith;
                status = refl;
                made = e;
              }

  -- A goal that was made: by whom, and how.
  pub record GoalMade (body : CreateGoal) (saved : Bool) (answer : Status × Goal) (h' : Hub)
      : Type 0 where
    pub by : String
    pub declared : Declared q h id body.by by
    pub named : (q.trim body.outcome == "") ≡ false
    pub fresh : Work.is_stale_allowed body.stale_after_secs ≡ true
    pub status : answer.0 ≡ Status.created
    pub made :
        Goals.create_goal
          (settle q h)
          id
          (record body {
            outcome = q.trim body.outcome;
            checkpoint = Work.trimmed_checkpoint q.trim body.checkpoint;
            by = by;
          })
          q.now
          saved
        ≡ (h', ok answer.1)

  create_goal-Goes :
      (body : CreateGoal) (saved : Bool)
      → Goes (GoalMade body saved) (Work.create_goal q id body saved h)
  unfolding Work.create_goal
  create_goal-Goes body saved =
      let R = GoalMade body saved in
      let sent : String → CreateGoal = λ by. record body {
        outcome = q.trim body.outcome;
        checkpoint = Work.trimmed_checkpoint q.trim body.checkpoint;
        by = by;
      } in
      opening R q h id _ λ opened.
        passing R (not (q.trim body.outcome == "")) Status.bad_request _ (settle q h) λ named.
          passing R (Work.is_stale_allowed body.stale_after_secs) Status.bad_request _ (settle q h)
            λ fresh. declaring R q h id body.by _ opened λ by declared.
              goal_created-Goes R (Goals.create_goal (settle q h) id (sent by) q.now saved)
                (create_goal-known (settle q h) id (sent by) q.now saved)
                λ g e. record {
                  by = by;
                  declared = declared;
                  named = ground arith;
                  fresh = fresh;
                  status = refl;
                  made = e;
                }

  -- A goal that was changed: by whom, and how.
  pub record GoalChanged (gid : ℕ) (body : UpdateGoal) (saved : Bool) (answer : Status × Goal)
      (h' : Hub) : Type 0 where
    pub by : String
    pub declared : Declared q h id body.by by
    pub named : Work.is_outcome_allowed q.trim body.outcome ≡ true
    pub status : answer.0 ≡ Status.success
    pub made :
        Goals.update_goal
          (settle q h)
          id
          gid
          (record body {
            outcome = map_option q.trim body.outcome;
            checkpoint = map_option q.trim body.checkpoint;
            by = by;
          })
          q.now
          saved
        ≡ (h', ok answer.1)

  update_goal-Goes :
      (gid : ℕ) (body : UpdateGoal) (saved : Bool)
      → Goes (GoalChanged gid body saved) (Work.update_goal q id gid body saved h)
  unfolding Work.update_goal
  update_goal-Goes gid body saved =
      let R = GoalChanged gid body saved in
      let sent : String → UpdateGoal = λ by. record body {
        outcome = map_option q.trim body.outcome;
        checkpoint = map_option q.trim body.checkpoint;
        by = by;
      } in
      opening R q h id _ λ opened.
        passing R (Work.is_outcome_allowed q.trim body.outcome) Status.bad_request _ (settle q h)
          λ named.
            passing R (Work.is_stale_allowed (unwrap_or none body.stale_after_secs))
              Status.bad_request _ (settle q h)
              λ fresh. declaring R q h id body.by _ opened λ by declared.
                goal_updated-Goes R (Goals.update_goal (settle q h) id gid (sent by) q.now saved)
                  λ g e. record {
                    by = by;
                    declared = declared;
                    named = named;
                    status = refl;
                    made = e;
                  }

-- A request for a task that is answered with one came from a caller whom the standing, open room lets in by the
-- ruling of its door: by rank, or without a ban and for one of the door's reasons. The
-- caller acts under the name that the task was made with: by a session, as a principal of the store, or, where no
-- session is asked for or shown, as claimed. By what the caller shows, the hub holds and the store knows, the
-- caller may operate the room: as a master or second master, in a building without an admin key, as the store's
-- operator of the room, or, in a server without a store, as one that the room's settings list. The title is not
-- blank, and the answered task is the one that `create_task` of the hub made.
pub create_task-TaskMade :
    (q : Request) (id : String) (h h' : Hub) (body : CreateTask) (saved : Bool)
    (answer : Status × Task)
    → Work.create_task q id body saved h ≡ next answer h'
    → TaskMade q id h body saved answer h'
create_task-TaskMade q id h h' body saved answer e =
    Goes-next (TaskMade q id h body saved) _ answer h' (create_task-Goes q id h body saved) e

-- A request for a goal that is answered with one came from a caller whom the standing, open room lets in, and
-- who is an admin or an operator of it; the outcome is not blank, and the age at which the goal is stale is
-- thirty days at most.
pub create_goal-GoalMade :
    (q : Request) (id : String) (h h' : Hub) (body : CreateGoal) (saved : Bool)
    (answer : Status × Goal)
    → Work.create_goal q id body saved h ≡ next answer h'
    → GoalMade q id h body saved answer h'
create_goal-GoalMade q id h h' body saved answer e =
    Goes-next (GoalMade q id h body saved) _ answer h' (create_goal-Goes q id h body saved) e

-- A request to change a goal that is answered with the goal came from a caller whom the standing, open room
-- lets in, and who is an admin or an operator of it; a new outcome is not blank.
pub update_goal-GoalChanged :
    (q : Request) (id : String) (h h' : Hub) (gid : ℕ) (body : UpdateGoal) (saved : Bool)
    (answer : Status × Goal)
    → Work.update_goal q id gid body saved h ≡ next answer h'
    → GoalChanged q id h gid body saved answer h'
update_goal-GoalChanged q id h h' gid body saved answer e =
    Goes-next (GoalChanged q id h gid body saved) _ answer h'
      (update_goal-Goes q id h gid body saved) e
