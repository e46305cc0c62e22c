-- ===== src/Hub/Work/Single.antt =====
-- A room has one active goal at most.
pub mod Updates
pub mod Tasks
use loca.Base.{
  ℕ, ◌≡◌, refl, sym, subst, ap, ◌∙◌, ◌⊎◌, inl, inr, String, Bool, true, false, not, ◌&&◌, ◌||◌,
  Option, none, some, List, [], ◌∷◌, ◌==◌, nat_eq, string_eq, if◌then◌else◌, is_some, any, find,
  arith, Result, ok, err, Bool-cases, Option-cases, Result-cases, wrap_suc,
}
use loca.Base.Dict
use loca.Base.Dict.{Dict, AllEntries}
use loca.Base.Dict.Laws.{lookup-insert, AllEntries-insert}
use loca.Protocol.Work.{Goal, GoalStatus, CreateGoal, UpdateGoal, UpdateTask, goal_status_eq}
use loca.Protocol.Chat.{ChatMode}
use loca.Hub.State.{Room, Hub, room_of, put_room, new_room, send}
use loca.Hub.Attention.Resolution.Frame.{core, core-resolve_condition_attention}
use loca.Hub.Settings.{has_active_goal}
use loca.Hub.Post.Rooms.{room_of-P, put_room-P}
use loca.Hub.Work.{is_active, normalize_goal_tasks, achieve, linked_goal_after_task_progress}
use loca.Hub.Work.Goals.{
  settle, change_goal_status, edited_goal, other_active, edit_goal, put_goal, new_goal, create_goal,
  update_goal,
}
use loca.Hub.Work.Tasks.{clear_condition, put_task, put_linked_goal, progressed_room, update_task}

-- Goals are filed under their ids, and no two are active.
pub record OneActive (m : Dict ℕ Goal) : Type 0 where
  pub filed : AllEntries (λ k (g : Goal). g.id ≡ k) m
  pub keyed : (k : ℕ) (g : Goal) → Dict.lookup k m ≡ some g → g.id ≡ k
  pub single :
      (i j : ℕ) (a b : Goal)
      → Dict.lookup i m ≡ some a
      → Dict.lookup j m ≡ some b
      → is_active a ≡ true
      → is_active b ≡ true
      → i ≡ j

pub no_value :
    (p : Goal → Bool) (k : ℕ) (g : Goal) (m : Dict ℕ Goal)
    → any p (Dict.values m) ≡ false
    → Dict.lookup k m ≡ some g
    → p g ≡ false
unfolding any Dict.lookup
no_value p k g [] h e = ground arith
no_value p k g ((j, v) ∷ m) h e = ground (arith, no_value p k g m)

-- A goal may be filed if it is not active, or no goal under another id is.
pub insert-OneActive :
    (k : ℕ) (g : Goal) (m : Dict ℕ Goal)
    → OneActive m
    → g.id ≡ k
    → ((j : ℕ) (b : Goal)
        → is_active g ≡ true
        → Dict.lookup j m ≡ some b
        → is_active b ≡ true
        → j ≡ k)
    → OneActive (Dict.insert k g m)
insert-OneActive k g m v id others = record {
  filed = AllEntries-insert (λ k (g : Goal). g.id ≡ k) k g m id v.filed;
  keyed = λ j b e. ground (arith, lookup-insert k j g m, v.keyed j b, nat_eq.equals_iff k j);
  single = λ i j a b ea eb aa ab. ground (
    arith,
    lookup-insert k i g m,
    lookup-insert k j g m,
    nat_eq.equals_iff k i,
    nat_eq.equals_iff k j,
    v.single i j a b,
    others i a,
    others j b,
  );
}

abbrev pub RoomGoals : String → Room → Type 0
RoomGoals name r = OneActive r.goals

abbrev pub HubGoals : Hub → Type 0
HubGoals h = AllEntries RoomGoals h.rooms

pub RoomGoals-core :
    (name : String) (r r' : Room) → core r ≡ core r' → RoomGoals name r → RoomGoals name r'
unfolding core
RoomGoals-core name r r' e v = subst OneActive (ap (λ (x : Room). x.goals) e) v

pub new_room-RoomGoals :
    (name : String) (h : Hub) → RoomGoals name (new_room ChatMode.free h.default_settings)
unfolding new_room Dict.lookup
new_room-RoomGoals name h = record {
  filed = tt;
  keyed = λ k g e. cc;
  single = λ i j a b ea eb aa ab. cc;
}

pub room_of-RoomGoals : (h : Hub) (room : String) → HubGoals h → OneActive (room_of h room).goals
room_of-RoomGoals h room v = room_of-P RoomGoals RoomGoals-core h room (new_room-RoomGoals room h) v

put_goal_goals : (id : ℕ) (g : Goal) (r : Room) → (put_goal id g r).goals ≡ Dict.insert id g r.goals
unfolding put_goal send
put_goal_goals id g r = refl

pub settle_id : (r : Room) (now : ℕ) (g : Goal) → (settle r now g).id ≡ g.id
unfolding settle achieve
settle_id r now g = ground arith

-- A goal that is still active after it settled was active.
pub settle_active :
    (r : Room) (now : ℕ) (g : Goal) → is_active (settle r now g) ≡ true → is_active g ≡ true
unfolding settle
settle_active r now g e = ground arith

filed_goal :
    (r : Room) (room : String) (req : CreateGoal) (ids : List ℕ) (now next : ℕ)
    → has_active_goal r ≡ false
    → OneActive r.goals
    → OneActive
        (put_goal r.next_goal_id
          (settle r now (new_goal r.next_goal_id room req ids now))
          (record r { next_goal_id = next })).goals
unfolding put_goal send has_active_goal new_goal is_active
filed_goal r room req ids now next quiet v =
    insert-OneActive r.next_goal_id _ r.goals v
      (settle_id r now (new_goal r.next_goal_id room req ids now))
      (λ j b active e busy. ground (arith, no_value is_active j b r.goals quiet e))

-- Creating a goal keeps, in every room, the goals under their ids and one of them active at most,
-- whatever the store answers.
pub create_goal-HubGoals :
    (h : Hub) (room : String) (req : CreateGoal) (now : ℕ) (saved : Bool)
    → HubGoals h
    → HubGoals (create_goal h room req now saved).0
unfolding create_goal
create_goal-HubGoals h room req now saved v =
    let r = room_of h room in
    let old = room_of-RoomGoals h room v in
    let refused = put_room-P RoomGoals RoomGoals-core h room r old v in
    elim (Bool-cases (is_some r.settings.lead)) [
      | inr none_leads ↦ rw none_leads refused
      | inl leads ↦ elim (Bool-cases (has_active_goal r)) [
        | inl busy ↦ rw (leads, busy, has_active_goal) refused
        | inr quiet ↦ elim (Result-cases (normalize_goal_tasks r req.completion req.task_ids)) [
          | inr (why, e) ↦ rw (leads, quiet, e) refused
          | inl (ids, e) ↦
              rw (leads, quiet, e)
                (elim (Bool-cases saved) [
                  | inr lost ↦ rw lost refused
                  | inl stored ↦ rw stored (
                      put_room-P RoomGoals RoomGoals-core h room _
                        (filed_goal r room req ids now (wrap_suc r.next_goal_id) quiet old) v)
                ])
        ]
      ]
    ]
