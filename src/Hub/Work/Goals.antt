-- ===== src/Hub/Work/Goals.antt =====
-- `create_goal` and `update_goal` (crates/server/src/hub/work/goal.rs).
use loca.Base.{
  ℕ, String, Bool, not, ◌&&◌, ◌||◌, Option, none, some, List, [], ◌∷◌, ◌==◌, string_eq, option_eq,
  list_eq, nat_eq, if◌then◌else◌, is_some, unwrap_or, any, format, show, wrap_suc, Result, ok, err,
}
use loca.Base.Dict
use loca.Base.Dict.{Dict}
use loca.Protocol.Work.{
  Goal, GoalStatus, CreateGoal, UpdateGoal, goal_status_eq, goal_completion_eq,
}
use loca.Protocol.Frames.{ServerFrame}
use loca.Hub.State.{Room, Hub, send, room_of, put_room}
use loca.Hub.Clock.{next_generation}
use loca.Hub.Settings.{has_active_goal}
use loca.Hub.Work.{GoalError, normalize_goal_tasks, all_goal_tasks_done, achieve, is_active}
use loca.Hub.Work.Tasks.{clear_condition}

unfoldable pub new_goal : ℕ → String → CreateGoal → List ℕ → ℕ → Goal
new_goal id room req task_ids now = record {
  id = id;
  room = room;
  outcome = req.outcome;
  checkpoint = req.checkpoint;
  stale_after_secs = req.stale_after_secs;
  created_by = req.by;
  completion = req.completion;
  task_ids = task_ids;
  status = GoalStatus.active;
  created_at = now;
  progress_at = now;
  closed_at = none;
}

-- A goal whose tasks are all done already is achieved at once.
unfoldable pub settle : Room → ℕ → Goal → Goal
unfolding is_active all_goal_tasks_done achieve
settle r now goal = if is_active goal && all_goal_tasks_done r goal then achieve now goal else goal

unfoldable pub put_goal : ℕ → Goal → Room → Room
unfolding send
put_goal id goal r = send (ServerFrame.goal goal) (record r { goals = Dict.insert id goal r.goals })

-- The room is made if it is not there, also when the goal is refused.
unfoldable pub create_goal : Hub → String → CreateGoal → ℕ → Bool → Hub × Result Goal GoalError
unfolding new_goal settle put_goal has_active_goal normalize_goal_tasks
create_goal h room req now saved =
    let r = room_of h room in
    let refused = put_room h room r in
    if not (is_some r.settings.lead)
    then (refused, err GoalError.lead_required)
    else if has_active_goal r
    then (refused, err GoalError.active_exists)
    else elim (normalize_goal_tasks r req.completion req.task_ids) [
      | err e ↦ (refused, err e)
      | ok ids ↦
          let goal = settle r now (new_goal r.next_goal_id room req ids now) in
          if saved
          then (
            put_room h room (
                put_goal r.next_goal_id goal (record r { next_goal_id = wrap_suc r.next_goal_id })),
            ok goal,
          )
          else (refused, err GoalError.storage)
    ]

-- The fields that a request may set without further checks. An empty checkpoint clears it.
unfoldable pub edit_goal : Goal → UpdateGoal → Goal
edit_goal goal req = record goal {
  outcome = unwrap_or goal.outcome req.outcome;
  checkpoint = elim req.checkpoint [
    | none ↦ goal.checkpoint
    | some text ↦ if text == "" then none else some text
  ];
  stale_after_secs = unwrap_or goal.stale_after_secs req.stale_after_secs;
  completion = unwrap_or goal.completion req.completion;
  task_ids = unwrap_or goal.task_ids req.task_ids;
}

unfoldable pub goal_closed_at : GoalStatus → ℕ → Option ℕ
goal_closed_at GoalStatus.active now = none
goal_closed_at GoalStatus.achieved now = some now
goal_closed_at GoalStatus.cancelled now = some now

-- Another goal of the room is active.
unfoldable pub other_active : ℕ → Room → Bool
unfolding is_active
other_active id r = any (λ other. not (other.id == id) && is_active other) (Dict.values r.goals)

unfoldable pub change_goal_status : Room → ℕ → Goal → Option GoalStatus → ℕ → Result Goal GoalError
unfolding other_active goal_closed_at
change_goal_status r id goal none now = ok goal
change_goal_status r id goal (some status) now =
    if status == GoalStatus.active && other_active id r
    then err GoalError.active_exists
    else if goal.status == status
    then ok goal
    else ok (record goal { status = status; closed_at = goal_closed_at status now })

-- What the request makes of the goal, before its progress is noted.
unfoldable pub edited_goal : Room → ℕ → Goal → UpdateGoal → ℕ → Result Goal GoalError
unfolding edit_goal normalize_goal_tasks change_goal_status settle is_active
edited_goal r id goal req now =
    let edited = edit_goal goal req in
    elim (normalize_goal_tasks r edited.completion edited.task_ids) [
      | err e ↦ err e
      | ok ids ↦ elim (change_goal_status r id (record edited { task_ids = ids }) req.status now) [
        | err e ↦ err e
        | ok changed ↦
            if is_active changed && not (is_some r.settings.lead)
            then err GoalError.lead_required
            else ok (settle r now changed)
      ]
    ]

unfoldable pub goal_progressed : Goal → Goal → Bool
goal_progressed old goal =
    not (old.outcome == goal.outcome)
    || not (old.checkpoint == goal.checkpoint)
    || not (old.stale_after_secs == goal.stale_after_secs)
    || not (old.completion == goal.completion)
    || not (old.task_ids == goal.task_ids)
    || not (old.status == goal.status)

unfoldable pub update_goal : Hub → String → ℕ → UpdateGoal → ℕ → Bool → Hub × Result Goal GoalError
unfolding edited_goal goal_progressed clear_condition put_goal
update_goal h room id req now saved = elim (Dict.lookup room h.rooms) [
  | none ↦ (h, err GoalError.not_found)
  | some r ↦ elim (Dict.lookup id r.goals) [
    | none ↦ (h, err GoalError.not_found)
    | some old ↦ elim (edited_goal r id old req now) [
      | err e ↦ (h, err e)
      | ok goal ↦
          let at = next_generation h.condition_generation now goal.progress_at in
          let moved = record goal { progress_at = at } in
          let h' = record h { condition_generation = at } in
          let key = format ("goal:" ∷ show id ∷ []) in
          if goal_progressed old goal
          then if saved
            then (put_room h' room (put_goal id moved (clear_condition room key at r)), ok moved)
            else (h', err GoalError.storage)
          else if saved
          then (put_room h room (put_goal id goal r), ok goal)
          else (h, err GoalError.storage)
    ]
  ]
]
