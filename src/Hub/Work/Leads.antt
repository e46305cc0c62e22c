-- ===== src/Hub/Work/Leads.antt =====
-- A room with an active goal has a lead.
pub mod Tasks
use loca.Base.{
  ℕ, ◌≡◌, refl, subst, sym, inl, inr, String, Bool, true, false, Option, none, some, List, [], ◌∷◌,
  ◌==◌, string_eq, nat_eq, if◌then◌else◌, not, ◌&&◌, ◌||◌, arith, Bool-cases, Option-cases, Result,
  ok, err, any, find, contains, is_some, Result-cases, format, show, wrap_suc, ap,
}
use loca.Base.Dict
use loca.Base.Dict.{Dict, AllEntries}
use loca.Base.Dict.Laws.{AllEntries-insert, AllEntries-lookup}
use loca.Protocol.Chat.{ChatMode}
use loca.Protocol.Work.{Goal, GoalStatus, UpdateGoal, CreateGoal}
use loca.Hub.State.{Room, Hub, send, room_of, put_room, new_room, is_deleted}
use loca.Hub.Attention.Resolution.Frame.{core}
use loca.Hub.Work.Tasks.{clear_condition}
use loca.Hub.Work.Single.Updates.{core-clear_condition}
use loca.Hub.Clock.{next_generation}
use loca.Hub.Settings.{has_active_goal, set_lead}
use loca.Hub.Work.{is_active, normalize_goal_tasks, all_goal_tasks_done, achieve}
use loca.Hub.Work.Goals.{
  create_goal, update_goal, edited_goal, settle, put_goal, change_goal_status, goal_progressed,
  edit_goal, new_goal,
}

-- No goal is active, or somebody leads.
abbrev pub RoomLed : String → Room → Type 0
RoomLed name r = (not (has_active_goal r) || is_some r.settings.lead) ≡ true

abbrev pub HubLed : Hub → Type 0
HubLed h = AllEntries RoomLed h.rooms

room_of-RoomLed : (h : Hub) (room : String) → HubLed h → RoomLed room (room_of h room)
unfolding room_of new_room has_active_goal any
room_of-RoomLed h room v = elim (Option-cases (Dict.lookup room h.rooms)) [
  | inl e ↦ rw e refl
  | inr (r, e) ↦ rw e (AllEntries-lookup RoomLed room r h.rooms v e)
]

pub put_room-HubLed :
    (h : Hub) (room : String) (r : Room) → RoomLed room r → HubLed h → HubLed (put_room h room r)
unfolding put_room
put_room-HubLed h room r p v = AllEntries-insert RoomLed room r h.rooms p v

-- Naming a lead, or ending the title, leaves somebody in the lead of every room with an active goal,
-- whatever the store answers.
pub set_lead-HubLed :
    (h : Hub) (room : String) (lead : Option String) (by : String) (now : ℕ) (saved : Bool)
    → HubLed h
    → HubLed (set_lead h room lead by now saved).0
unfolding set_lead send has_active_goal
set_lead-HubLed h room lead by now saved v = elim (Bool-cases (is_deleted h room)) [
  | inl gone ↦ rw gone v
  | inr here ↦ elim (Bool-cases (not (is_some lead) && has_active_goal (room_of h room))) [
    | inl refused ↦ rw (here, refused) v
    | inr allowed ↦ elim (Bool-cases saved) [
      | inr lost ↦ rw (here, allowed, lost) v
      | inl stored ↦
          rw (here, allowed, stored)
            (put_room-HubLed (record h { next_id = wrap_suc h.next_id }) room _
              (ground (arith, allowed)) v)
    ]
  ]
]

settle_lead :
    (r : Room) (now : ℕ) (g : Goal) → is_active (settle r now g) ≡ true → is_active g ≡ true
unfolding settle
settle_lead r now g e = ground arith

-- A goal that an update leaves active is in a room with a lead.
edited_led :
    (r : Room) (id : ℕ) (old g : Goal) (req : UpdateGoal) (now : ℕ)
    → edited_goal r id old req now ≡ ok g
    → (not (is_active g) || is_some r.settings.lead) ≡ true
unfolding edited_goal
edited_led r id old g req now e =
    elim (Result-cases
      (normalize_goal_tasks r (edit_goal old req).completion (edit_goal old req).task_ids)) [
        | inr (why, n) ↦ ground arith
        | inl (ids, n) ↦
            elim (Result-cases (
              change_goal_status r id (record (edit_goal old req) { task_ids = ids }) req.status
                now)) [
                  | inr (why, n2) ↦ ground arith
                  | inl (changed, n2) ↦ ground (arith, settle_lead r now changed)
                ]
      ]

any_insert :
    (k : ℕ) (g : Goal) (m : Dict ℕ Goal)
    → any is_active (Dict.values m) ≡ false
    → is_active g ≡ false
    → any is_active (Dict.values (Dict.insert k g m)) ≡ false
unfolding any Dict.insert
any_insert k g [] none_active closed = ground arith
any_insert k g ((j, o) ∷ m) none_active closed = ground (arith, any_insert k g m)

stored_led :
    (id : ℕ) (g : Goal) (room : String) (r : Room)
    → (not (is_active g) || is_some r.settings.lead) ≡ true
    → RoomLed room r
    → RoomLed room (put_goal id g r)
unfolding put_goal send has_active_goal is_active
stored_led id g room r led v = ground (arith, any_insert id g r.goals, is_active)

-- Creating a goal leaves somebody in the lead of every room with an active goal, whatever the store
-- answers.
pub create_goal-HubLed :
    (h : Hub) (room : String) (req : CreateGoal) (now : ℕ) (saved : Bool)
    → HubLed h
    → HubLed (create_goal h room req now saved).0
unfolding create_goal put_goal send
create_goal-HubLed h room req now saved v =
    let r = room_of h room in
    let refused = put_room-HubLed h room r (room_of-RoomLed h room v) v in
    elim (Bool-cases (is_some r.settings.lead)) [
      | inr none_leads ↦ rw none_leads refused
      | inl leads ↦ elim (Bool-cases (has_active_goal r)) [
        | inl busy ↦ rw (leads, busy, has_active_goal) refused
        | inr quiet ↦ elim (Result-cases (normalize_goal_tasks r req.completion req.task_ids)) [
          | inr (why, e) ↦ rw (leads, quiet, e) refused
          | inl (ids, e) ↦
              rw (leads, quiet, e)
                (elim (Bool-cases saved) [
                  | inr lost ↦ rw lost refused
                  | inl stored ↦ rw stored (put_room-HubLed h room _ (ground (arith, leads)) v)
                ])
        ]
      ]
    ]

pub moved_led :
    (room key : String) (id at : ℕ) (g : Goal) (r : Room)
    → (not (is_active g) || is_some r.settings.lead) ≡ true
    → RoomLed room r
    → RoomLed room (put_goal id g (clear_condition room key at r))
unfolding has_active_goal core
moved_led room key id at g r led v =
    let same = core-clear_condition room key at r in
    let goals : (clear_condition room key at r).goals ≡ r.goals = ap (λ (x : Room). x.goals) same in
    let settings : (clear_condition room key at r).settings ≡ r.settings =
      ap (λ (x : Room). x.settings) same in
    stored_led id g room (clear_condition room key at r) (rw settings led) (rw (goals, settings) v)

-- Updating a goal leaves somebody in the lead of every room with an active goal, whatever the store
-- answers.
pub update_goal-HubLed :
    (h : Hub) (room : String) (id : ℕ) (req : UpdateGoal) (now : ℕ) (saved : Bool)
    → HubLed h
    → HubLed (update_goal h room id req now saved).0
unfolding update_goal
update_goal-HubLed h room id req now saved v = elim (Option-cases (Dict.lookup room h.rooms)) [
  | inl e ↦ rw (e, update_goal) v
  | inr (r, e) ↦ elim (Option-cases (Dict.lookup id r.goals)) [
    | inl e2 ↦ rw (e, e2, update_goal) v
    | inr (old, e2) ↦ elim (Result-cases (edited_goal r id old req now)) [
      | inr (why, e3) ↦ rw (e, e2, e3, update_goal) v
      | inl (g, e3) ↦
          let at = next_generation h.condition_generation now g.progress_at in
          let key = format ("goal:" ∷ show id ∷ []) in
          let led = AllEntries-lookup RoomLed room r h.rooms v e in
          elim (Bool-cases (goal_progressed old g)) [
            | inl moved ↦ elim (Bool-cases saved) [
              | inl stored ↦
                  rw (e, e2, e3, moved, stored, update_goal)
                    (put_room-HubLed (record h { condition_generation = at }) room _
                      (moved_led room key id at (record g { progress_at = at }) r
                        (edited_led r id old g req now e3) led)
                      v)
              | inr lost ↦ rw (e, e2, e3, moved, lost, update_goal) v
            ]
            | inr still ↦ elim (Bool-cases saved) [
              | inl stored ↦
                  rw (e, e2, e3, still, stored, update_goal)
                    (put_room-HubLed h room _
                      (stored_led id g room r (edited_led r id old g req now e3) led) v)
              | inr lost ↦ rw (e, e2, e3, still, lost, update_goal) v
            ]
          ]
    ]
  ]
]
