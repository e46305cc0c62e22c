-- ===== src/Hub/Work/Tasks.antt =====
-- `create_task` and `update_task` (crates/server/src/hub/work/task.rs). A number wraps where the
-- release build of the source adds one.
use loca.Base.{
  ℕ, String, Bool, not, ◌&&◌, ◌||◌, Option, none, some, [], ◌∷◌, ◌==◌, string_eq, option_eq, nat_eq,
  if◌then◌else◌, is_some, format, show, wrap_suc, Answer, failed, got, Result, ok, err,
}
use loca.Base.Dict
use loca.Base.Dict.{Dict}
use loca.Protocol.Work.{Task, TaskStatus, CreateTask, UpdateTask, Goal, task_status_eq}
use loca.Protocol.Frames.{ServerFrame}
use loca.Hub.State.{Room, Hub, send, room_of, put_room}
use loca.Hub.Clock.{next_generation}
use loca.Hub.Attention.Resolution.{resolve_condition_attention}
use loca.Hub.Work.{TaskError, linked_goal_after_task_progress}

unfoldable pub new_task : ℕ → String → CreateTask → ℕ → Task
new_task id room req now = record {
  id = id;
  room = room;
  title = req.title;
  created_by = req.by;
  from_message = req.from_message;
  assigned_to = req.assigned_to;
  status = TaskStatus.opened;
  created_at = now;
  progress_at = now;
  closed_at = none;
}

unfoldable pub create_task : Hub → String → CreateTask → ℕ → Bool → Hub × Answer Task
unfolding new_task send
create_task h room req now saved =
    let id = elim (Dict.lookup room h.rooms) as (λ _. ℕ) [ none ↦ 1 | some r ↦ r.next_task_id ] in
    let t = new_task id room req now in
    let r = room_of h room in
    if saved
    then (
      put_room h room (
          send (ServerFrame.task t)
            (record r { next_task_id = wrap_suc id; tasks = Dict.insert id t r.tasks })),
      got t,
    )
    else (h, failed)

-- Who may assign: an operator, or whoever claims an unassigned task, or one of theirs, for
-- themselves.
unfoldable pub assign : Task → UpdateTask → Bool → Result Task TaskError
assign t req is_operator = elim req.assigned_to [
  | none ↦ ok t
  | some assignee ↦
      if not is_operator
        && ((is_some t.assigned_to && not (t.assigned_to == some req.by))
            || not (assignee == req.by))
      then err TaskError.forbidden
      else ok (record t { assigned_to = some assignee })
]

unfoldable pub status_allowed : TaskStatus → Bool → Bool → Bool
status_allowed TaskStatus.taken is_operator mine = is_operator || mine
status_allowed TaskStatus.done is_operator mine = is_operator || mine
status_allowed TaskStatus.cancelled is_operator mine = is_operator
status_allowed TaskStatus.opened is_operator mine = is_operator

unfoldable pub task_closed_at : TaskStatus → ℕ → Option ℕ
task_closed_at TaskStatus.done now = some now
task_closed_at TaskStatus.cancelled now = some now
task_closed_at TaskStatus.opened now = none
task_closed_at TaskStatus.taken now = none

unfoldable pub change_status : Task → UpdateTask → Bool → ℕ → Result Task TaskError
unfolding status_allowed task_closed_at
change_status t req is_operator now = elim req.status [
  | none ↦ ok t
  | some st ↦
      if status_allowed st is_operator (t.assigned_to == some req.by)
      then ok (
          if t.status == st then t else record t { status = st; closed_at = task_closed_at st now })
      else err TaskError.forbidden
]

-- What the request makes of the task, before its progress is noted.
unfoldable pub edited_task : Task → UpdateTask → Bool → ℕ → Result Task TaskError
unfolding assign change_status
edited_task t req is_operator now = elim (assign t req is_operator) [
  | err e ↦ err e
  | ok t' ↦ change_status t' req is_operator now
]

-- `progressed`: the assignee or the status is another one.
unfoldable pub task_progressed : Task → Task → Bool
task_progressed old out = not (old.assigned_to == out.assigned_to) || not (old.status == out.status)

unfoldable pub clear_condition : String → String → ℕ → Room → Room
unfolding resolve_condition_attention
clear_condition room key at r =
    resolve_condition_attention (record r { care_marks = Dict.remove key r.care_marks }) room key at

unfoldable pub put_task : ℕ → Task → Room → Room
unfolding send
put_task id out r = send (ServerFrame.task out) (record r { tasks = Dict.insert id out r.tasks })

unfoldable pub put_linked_goal : String → Option Goal → Room → Room
unfolding send clear_condition
put_linked_goal room none r = r
put_linked_goal room (some goal) r =
    let cleared = clear_condition room (format ("goal:" ∷ show goal.id ∷ [])) goal.progress_at r in
    send (ServerFrame.goal goal) (record cleared { goals = Dict.insert goal.id goal cleared.goals })

-- The room after an update that moved the task, and the goal that moved with it.
unfoldable pub progressed_room : String → ℕ → Task → Option Goal → Room → Room
unfolding clear_condition put_task put_linked_goal
progressed_room room id out linked r =
    put_linked_goal room linked
      (put_task id out (clear_condition room (format ("task:" ∷ show id ∷ [])) out.progress_at r))

unfoldable pub update_task :
    Hub → String → ℕ → UpdateTask → Bool → ℕ → Bool → Hub × Result Task TaskError
unfolding edited_task task_progressed progressed_room put_task
update_task h room id req is_operator now saved = elim (Dict.lookup room h.rooms) [
  | none ↦ (h, err TaskError.not_found)
  | some r ↦ elim (Dict.lookup id r.tasks) [
    | none ↦ (h, err TaskError.not_found)
    | some t ↦ elim (edited_task t req is_operator now) [
      | err e ↦ (h, err e)
      | ok t' ↦
          let at = next_generation h.condition_generation now t.progress_at in
          let out = record t' { progress_at = at } in
          let linked = linked_goal_after_task_progress at r out at in
          let h' = record h { condition_generation = linked.0 } in
          if task_progressed t t'
          then elim linked.1 [
            | failed ↦ (h', err TaskError.panicked)
            | got goal ↦
                if saved
                then (put_room h' room (progressed_room room id out goal r), ok out)
                else (h', err TaskError.storage)
          ]
          else if saved
          then (put_room h room (put_task id t' r), ok t')
          else (h, err TaskError.storage)
    ]
  ]
]
