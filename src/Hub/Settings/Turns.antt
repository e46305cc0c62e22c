-- ===== src/Hub/Settings/Turns.antt =====
-- The turn of a round-robin room: it stays inside the order, whoever posts and however the mode
-- is set.
use native.Mathlib.Nat.{mod-lt, mod-add-mod}
use loca.Base.{
  ℕ, zero, suc, ◌+◌, ◌%◌, ◌<◌, ◌≡◌, refl, sym, subst, ◌∙◌, ap, String, Bool, true, false, Option,
  none, some, List, [], ◌∷◌, arith, inl, inr, Bool-cases, Option-cases, length, get_elem?,
  string_eq, leb, if◌then◌else◌,
}
use loca.Base.Dict.{AllEntries}
use loca.Protocol.Chat.{Attachment, Message, ChatMode}
use loca.Hub.State.{Room, Hub, room_of, is_deleted, new_room}
use loca.Hub.Settings.{normalize, set_mode}
use loca.Hub.Attention.Resolution.Frame.{core}
use loca.Hub.Post.Gate.{rate_gate}
use loca.Hub.Post.Compose.{advance_turn}
use loca.Hub.Post.Commit.{record_time, record_operation, record_turn, record_message}
use loca.Hub.Post.Core.{core-record_message}
use loca.Hub.Post.Deliver.{Call, post}
use loca.Hub.Post.Cases.{rated_room, Passed, posted}
use loca.Hub.Post.Rooms.{post-P, saved_room, room_of-P, put_room-P}

-- The turn names a member of the order, unless the order is empty.
abbrev pub TurnOk : ChatMode → Type 0
TurnOk ChatMode.free = Unit
TurnOk ChatMode.paused = Unit
TurnOk (ChatMode.restricted allow) = Unit
TurnOk (ChatMode.round_robin order turn) = 0 < length order → turn < length order

inside :
    (order : List String) (turn : ℕ)
    → 0 < length order
    → (if leb (length order) turn then 0 else turn) < length order
inside order turn h = ground arith

normalize-TurnOk : (mode : ChatMode) → TurnOk (normalize mode)
unfolding normalize
normalize-TurnOk ChatMode.free = tt
normalize-TurnOk ChatMode.paused = tt
normalize-TurnOk (ChatMode.restricted allow) = tt
normalize-TurnOk (ChatMode.round_robin order turn) = λ h. inside order turn h

advance_round :
    (order : List String) (turn : ℕ) (mode' : ChatMode) (sender : String)
    → advance_turn (ChatMode.round_robin order turn) sender ≡ some mode'
    → mode' ≡ ChatMode.round_robin order ((turn + 1) % length order)
unfolding advance_turn
advance_round order turn mode' sender e = ground arith

advance_turn-TurnOk :
    (mode mode' : ChatMode) (sender : String) → advance_turn mode sender ≡ some mode' → TurnOk mode'
unfolding advance_turn
advance_turn-TurnOk ChatMode.free mode' sender e = cc
advance_turn-TurnOk ChatMode.paused mode' sender e = cc
advance_turn-TurnOk (ChatMode.restricted allow) mode' sender e = cc
advance_turn-TurnOk (ChatMode.round_robin order turn) mode' sender e =
    subst TurnOk (sym (advance_round order turn mode' sender e)) (λ h. mod-lt (turn + 1) h)

abbrev pub RoomTurn : String → Room → Type 0
RoomTurn name r = TurnOk r.mode

abbrev pub HubTurns : Hub → Type 0
HubTurns h = AllEntries RoomTurn h.rooms

pub RoomTurn-core :
    (name : String) (r r' : Room) → core r ≡ core r' → RoomTurn name r → RoomTurn name r'
unfolding core
RoomTurn-core name r r' e t = subst TurnOk (ap (λ (x : Room). x.mode) e) t

pub new_room-RoomTurn :
    (name : String) (h : Hub) → RoomTurn name (new_room ChatMode.free h.default_settings)
unfolding new_room
new_room-RoomTurn name h = tt

rated_mode :
    (now : ℕ) (r : Room) (sender : String) (is_admin : Bool)
    → (rate_gate now r sender is_admin).0.mode ≡ r.mode
unfolding rate_gate
rated_mode now r sender is_admin = ground arith

record_operation_mode :
    (op : Option String) (principal : String) (m : Message) (r : Room)
    → (record_operation op principal m r).mode ≡ r.mode
unfolding record_operation
record_operation_mode none principal m r = refl
record_operation_mode (some id) principal m r = refl

record_time_mode :
    (rated : Bool) (now : ℕ) (sender : String) (r : Room)
    → (record_time rated now sender r).mode ≡ r.mode
unfolding record_time
record_time_mode false now sender r = refl
record_time_mode true now sender r = refl

record_turn-TurnOk :
    (r : Room) (sender : String)
    → TurnOk r.mode
    → TurnOk (record_turn (advance_turn r.mode sender) r).mode
unfolding record_turn
record_turn-TurnOk r sender t = elim (Option-cases (advance_turn r.mode sender)) [
  | inl e ↦ rw (e, record_turn) t
  | inr (mode', e) ↦ rw (e, record_turn) (advance_turn-TurnOk r.mode mode' sender e)
]

message_mode : (room : String) (m : Message) (r : Room) → (record_message room m r).mode ≡ r.mode
unfolding core
message_mode room m r = ap (λ (x : Room). x.mode) (core-record_message room m r)

saved-RoomTurn :
    (c : Call) (h : Hub) (attachments : List Attachment) (author : Option String)
    → Passed c h
    → RoomTurn c.room (room_of h c.room)
    → RoomTurn c.room (saved_room c h attachments author)
saved-RoomTurn c h attachments author p old =
    rw (message_mode, record_operation_mode, record_time_mode)
      (record_turn-TurnOk (rated_room c h) (posted c h attachments author).sender
        (rw (rated_mode c.now (room_of h c.room) c.body.sender c.is_admin) old))

-- A post keeps the turn of every room inside its order.
pub post-HubTurns : (c : Call) (h : Hub) → HubTurns h → HubTurns (post c h).0
post-HubTurns c h all =
    post-P RoomTurn RoomTurn-core c h (new_room-RoomTurn c.room h)
      (λ old. rw (rated_mode c.now (room_of h c.room) c.body.sender c.is_admin) old)
      (saved-RoomTurn c h) all

-- Setting a mode, whatever turn is asked for, keeps the turn of every room inside its order.
set_mode-HubTurns :
    (h : Hub) (room : String) (mode : ChatMode) (saved : Bool)
    → HubTurns h
    → HubTurns (set_mode h room mode saved).0
unfolding set_mode
set_mode-HubTurns h room mode saved all = elim (Bool-cases (is_deleted h room)) [
  | inl gone ↦ rw gone all
  | inr here ↦ elim (Bool-cases saved) [
    | inl good ↦
        rw (here, good) (put_room-P RoomTurn RoomTurn-core h room _ (normalize-TurnOk mode) all)
    | inr bad ↦
        rw (here, bad)
          (put_room-P RoomTurn RoomTurn-core h room _
            (room_of-P RoomTurn RoomTurn-core h room (new_room-RoomTurn room h) all) all)
  ]
]

-- The mode after the holders have spoken `n` times in turn.
unfoldable pub rotate : ℕ → ChatMode → ChatMode
rotate zero mode = mode
rotate (suc n) (ChatMode.round_robin order turn) = elim (get_elem? order turn) [
  | none ↦ ChatMode.round_robin order turn
  | some cur ↦ elim (advance_turn (ChatMode.round_robin order turn) cur) [
    | none ↦ ChatMode.round_robin order turn
    | some mode' ↦ rotate n mode'
  ]
]
rotate (suc n) mode = mode

get_elem?-some :
    {A : Type 0} (xs : List A) (i : ℕ) → i < length xs → (x : A) × (get_elem? xs i ≡ some x)
get_elem?-some [] i h = absurd (omega arith)
get_elem?-some (x ∷ xs) zero h = (x, refl)
get_elem?-some (x ∷ xs) (suc i) h = get_elem?-some xs i (omega arith)

holder_advances :
    (order : List String) (turn : ℕ) (cur : String)
    → get_elem? order turn ≡ some cur
    → advance_turn (ChatMode.round_robin order turn) cur
      ≡ some (ChatMode.round_robin order ((turn + 1) % length order))
unfolding advance_turn
holder_advances order turn cur e = ground (arith, string_eq.equals_iff cur cur)

-- In a round whose turn is inside the order, when each holder speaks in turn, the baton stands after `n` messages `n` places further on,
-- counted round the order; so after as many messages as there are members it is back.
pub rotate_lem :
    (n : ℕ) (order : List String) (turn : ℕ)
    → turn < length order
    → rotate n (ChatMode.round_robin order turn)
      ≡ ChatMode.round_robin order ((turn + n) % length order)
unfolding rotate
rotate_lem zero order turn h =
    let same : (turn + 0) % length order ≡ turn = grind arith in
    ap (ChatMode.round_robin order) (sym same)
rotate_lem (suc n) order turn h =
    let (cur, e) = get_elem?-some order turn h in
    let regroup : (turn + 1) + n ≡ turn + suc n = omega arith in
    rw (e, holder_advances order turn cur e, rotate)
      (rotate_lem n order ((turn + 1) % length order) (mod-lt (turn + 1) (omega arith))
        ∙ ap (ChatMode.round_robin order)
            (mod-add-mod (turn + 1) (length order) n ∙ ap (λ (k : ℕ). k % length order) regroup))
