-- ===== src/Hub/Work/Authority.antt =====
-- Who may change a task, and what an update leaves as it was.
use loca.Base.{
  ℕ, ◌<◌, ◌≡◌, ◌≢◌, refl, subst, ◌∙◌, ◌⊎◌, inl, inr, String, Bool, true, false, none, some,
  string_eq, nat_eq, option_eq, if◌then◌else◌, arith, ok, Bool-cases, Option-cases, u64_max,
  option_beq_iff, Result-cases,
}
use loca.Base.Dict
use loca.Protocol.Work.{Task, TaskStatus, UpdateTask, task_status_eq}
use loca.Hub.State.{Room, Hub}
use loca.Hub.Clock.{next_generation, next_generation_bounds}
use loca.Hub.Work.Tasks.{
  assign, status_allowed, task_closed_at, change_status, edited_task, task_progressed, update_task,
}

-- What a participant who is no operator may have done to a task.
pub record Own (by : String) (t out : Task) : Type 0 where
  pub assignee :
      (out.assigned_to ≡ t.assigned_to) ⊎ ((t.assigned_to ≡ none) × (out.assigned_to ≡ some by))
  pub status :
      (out.status ≡ t.status)
      ⊎ ((out.assigned_to ≡ some by)
          × ((out.status ≡ TaskStatus.taken) ⊎ (out.status ≡ TaskStatus.done)))

-- What no update changes.
pub record SameTask (t out : Task) : Type 0 where
  pub id : out.id ≡ t.id
  pub room : out.room ≡ t.room
  pub title : out.title ≡ t.title
  pub created_by : out.created_by ≡ t.created_by
  pub from_message : out.from_message ≡ t.from_message
  pub created_at : out.created_at ≡ t.created_at

assign_own :
    (t t' : Task) (req : UpdateTask)
    → assign t req false ≡ ok t'
    → ((t'.assigned_to ≡ t.assigned_to) ⊎ ((t.assigned_to ≡ none) × (t'.assigned_to ≡ some req.by)))
      × (t'.status ≡ t.status)
unfolding assign
assign_own t t' req e = elim (Option-cases req.assigned_to) [
  | inl keep ↦ ground arith
  | inr (assignee, given) ↦ ground (
    arith,
    option_beq_iff t.assigned_to (some req.by),
    string_eq.equals_iff assignee req.by,
    Option-cases t.assigned_to,
  )
]

change_own :
    (t t' : Task) (req : UpdateTask) (now : ℕ)
    → change_status t req false now ≡ ok t'
    → (t'.assigned_to ≡ t.assigned_to)
      × ((t'.status ≡ t.status)
          ⊎ ((t.assigned_to ≡ some req.by)
              × ((t'.status ≡ TaskStatus.taken) ⊎ (t'.status ≡ TaskStatus.done))))
unfolding change_status status_allowed task_closed_at
change_own t t' req now e = elim (Option-cases req.status) [
  | inl keep ↦ ground arith
  | inr (st, given) ↦
      ground
        (arith, option_beq_iff t.assigned_to (some req.by), task_status_eq.equals_iff t.status st)
]

assign_same :
    (t t' : Task) (req : UpdateTask) (is_operator : Bool)
    → assign t req is_operator ≡ ok t'
    → SameTask t t'
unfolding assign
assign_same t t' req is_operator e = elim (Option-cases req.assigned_to) [
  | inl keep ↦ ground arith
  | inr (assignee, given) ↦ ground arith
]

change_same :
    (t t' : Task) (req : UpdateTask) (is_operator : Bool) (now : ℕ)
    → change_status t req is_operator now ≡ ok t'
    → SameTask t t'
unfolding change_status
change_same t t' req is_operator now e = elim (Option-cases req.status) [
  | inl keep ↦ ground arith
  | inr (st, given) ↦ ground arith
]

-- An edit is an assignment and then a change of the status.
edited_parts :
    (t t' : Task) (req : UpdateTask) (is_operator : Bool) (now : ℕ)
    → edited_task t req is_operator now ≡ ok t'
    → (m : Task) × (assign t req is_operator ≡ ok m) × (change_status m req is_operator now ≡ ok t')
unfolding edited_task
edited_parts t t' req is_operator now e = elim (Result-cases (assign t req is_operator)) [
  | inl (m, am) ↦ (m, am, ground arith)
  | inr (why, refused) ↦ ground arith
]

edited-Own :
    (t t' : Task) (req : UpdateTask) (now : ℕ)
    → edited_task t req false now ≡ ok t'
    → Own req.by t t'
edited-Own t t' req now e =
    let parts = edited_parts t t' req false now e in
    let a = assign_own t parts.0 req parts.1 in
    let c = change_own parts.0 t' req now parts.2 in
    record { assignee = ground (arith, a.0, c.0); status = ground (arith, a, c) }

edited_same :
    (t t' : Task) (req : UpdateTask) (is_operator : Bool) (now : ℕ)
    → edited_task t req is_operator now ≡ ok t'
    → SameTask t t'
edited_same t t' req is_operator now e =
    let parts = edited_parts t t' req is_operator now e in
    let a = assign_same t parts.0 req is_operator parts.1 in
    let c = change_same parts.0 t' req is_operator now parts.2 in
    record {
      id = c.id ∙ a.id;
      room = c.room ∙ a.room;
      title = c.title ∙ a.title;
      created_by = c.created_by ∙ a.created_by;
      from_message = c.from_message ∙ a.from_message;
      created_at = c.created_at ∙ a.created_at;
    }

edited_time :
    (t t' : Task) (req : UpdateTask) (is_operator : Bool) (now : ℕ)
    → edited_task t req is_operator now ≡ ok t'
    → t'.progress_at ≡ t.progress_at
unfolding edited_task assign change_status
edited_time t t' req is_operator now e =
    ground (arith, Option-cases req.assigned_to, Option-cases req.status)

-- The task that an update answers with.
update_task_edit :
    (h : Hub) (room : String) (r : Room) (id : ℕ) (t out : Task) (req : UpdateTask)
    (is_operator : Bool) (now : ℕ) (saved : Bool)
    → Dict.lookup room h.rooms ≡ some r
    → Dict.lookup id r.tasks ≡ some t
    → (update_task h room id req is_operator now saved).1 ≡ ok out
    → (t' : Task) × (edited_task t req is_operator now ≡ ok t')
      × (out ≡ (
          if task_progressed t t'
          then record t' { progress_at = next_generation h.condition_generation now t.progress_at }
          else t'))
unfolding update_task
update_task_edit h room r id t out req is_operator now saved at_room at_task e =
    elim (Result-cases (edited_task t req is_operator now)) [
      | inl (t', et) ↦ (
        t',
        et,
        elim (Bool-cases (task_progressed t t')) [
          | inl moved ↦ ground arith
          | inr still ↦ ground arith
        ],
      )
      | inr (why, refused) ↦ ground arith
    ]

-- If a participant who is no operator updates a task of the room and the update succeeds, then the
-- assignee is as before, or the task was unassigned and is now theirs; and the status is as before,
-- or it is taken or done and the task is theirs.
pub update_task-Own :
    (h : Hub) (room : String) (r : Room) (id : ℕ) (t out : Task) (req : UpdateTask) (now : ℕ)
    (saved : Bool)
    → Dict.lookup room h.rooms ≡ some r
    → Dict.lookup id r.tasks ≡ some t
    → (update_task h room id req false now saved).1 ≡ ok out
    → Own req.by t out
update_task-Own h room r id t out req now saved at_room at_task e =
    let x = update_task_edit h room r id t out req false now saved at_room at_task e in
    let own = edited-Own t x.0 req now x.1 in
    let same = x.2 in
    record { assignee = ground (arith, own.assignee); status = ground (arith, own.status) }

moved_progressed :
    (t t' : Task) (at : ℕ)
    → task_progressed t (record t' { progress_at = at }) ≡ task_progressed t t'
unfolding task_progressed
moved_progressed t t' at = refl

update_task_moved :
    (h : Hub) (room : String) (r : Room) (id : ℕ) (t out : Task) (req : UpdateTask)
    (is_operator : Bool) (now : ℕ) (saved : Bool)
    → h.condition_generation < u64_max
    → t.progress_at < u64_max
    → Dict.lookup room h.rooms ≡ some r
    → Dict.lookup id r.tasks ≡ some t
    → (update_task h room id req is_operator now saved).1 ≡ ok out
    → SameTask t out
      × (if task_progressed t out
          then t.progress_at < out.progress_at
          else out.progress_at ≡ t.progress_at)
update_task_moved h room r id t out req is_operator now saved low_h low_t at_room at_task e =
    let x = update_task_edit h room r id t out req is_operator now saved at_room at_task e in
    let same = edited_same t x.0 req is_operator now x.1 in
    let time = edited_time t x.0 req is_operator now x.1 in
    let grows = next_generation_bounds h.condition_generation now t.progress_at low_h low_t in
    elim (Bool-cases (task_progressed t x.0)) [
      | inl moved ↦
          let is : record x.0 {
            progress_at = next_generation h.condition_generation now t.progress_at;
          }
              ≡ out =
            ground (arith, x.2) in
          subst
            (λ (o : Task).
              SameTask t o
              × (if task_progressed t o
                  then t.progress_at < o.progress_at
                  else o.progress_at ≡ t.progress_at))
            is
            (
              record {
                id = same.id;
                room = same.room;
                title = same.title;
                created_by = same.created_by;
                from_message = same.from_message;
                created_at = same.created_at;
              },
              rw
                  (
                    moved_progressed t x.0
                        (next_generation h.condition_generation now t.progress_at),
                    moved,
                  )
                  grows.1,
            )
      | inr still ↦
          let is : x.0 ≡ out = ground (arith, x.2) in
          subst
            (λ (o : Task).
              SameTask t o
              × (if task_progressed t o
                  then t.progress_at < o.progress_at
                  else o.progress_at ≡ t.progress_at))
            is (same, rw still time)
    ]

moved_apart :
    (t out : Task)
    → (t.assigned_to ≢ out.assigned_to) ⊎ (t.status ≢ out.status)
    → task_progressed t out ≡ true
unfolding task_progressed
moved_apart t out (inl other) = ground (arith, option_beq_iff t.assigned_to out.assigned_to)
moved_apart t out (inr other) = ground (arith)

still_same :
    (t out : Task)
    → t.assigned_to ≡ out.assigned_to
    → t.status ≡ out.status
    → task_progressed t out ≡ false
unfolding task_progressed
still_same t out a b = ground (arith, option_beq_iff t.assigned_to out.assigned_to)

-- What became of a task: it is the same one, and its progress is later just where it has another assignee or
-- another status.
pub record Progress (t out : Task) : Type 0 where
  pub same : SameTask t out
  pub moved :
      (t.assigned_to ≢ out.assigned_to) ⊎ (t.status ≢ out.status) → t.progress_at < out.progress_at
  pub still :
      t.assigned_to ≡ out.assigned_to → t.status ≡ out.status → out.progress_at ≡ t.progress_at

-- An update of a task that succeeds leaves its id, room, title, maker, source and birth; the time of its progress
-- grows where the assignee or the status is another one afterwards, and stays where neither is. (The counter of
-- generations and the task's last progress are below the largest 64-bit number.)
pub update_task-Progress :
    (h : Hub) (room : String) (r : Room) (id : ℕ) (t out : Task) (req : UpdateTask)
    (is_operator : Bool) (now : ℕ) (saved : Bool)
    → h.condition_generation < u64_max
    → t.progress_at < u64_max
    → Dict.lookup room h.rooms ≡ some r
    → Dict.lookup id r.tasks ≡ some t
    → (update_task h room id req is_operator now saved).1 ≡ ok out
    → Progress t out
update_task-Progress h room r id t out req is_operator now saved low_h low_t at_room at_task e =
    let x =
      update_task_moved h room r id t out req is_operator now saved low_h low_t at_room at_task e in
    record {
      same = x.0;
      moved = λ other. ground (arith, x.1, moved_apart t out other);
      still = λ a b. ground (arith, x.1, still_same t out a b);
    }
