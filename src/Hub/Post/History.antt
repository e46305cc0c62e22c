-- ===== src/Hub/Post/History.antt =====
-- The history and the numbers of the messages.
use loca.Base.{
  ℕ, zero, suc, ◌-◌, ◌≤◌, ◌<◌, String, Bool, true, false, Option, none, some, List, [], ◌∷◌, ◌++◌,
  ◌≡◌, refl, ◌∙◌, inl, inr, ◌⊎◌, arith, string_eq, ok, err, ap, length, length-drop, drop, u64_max,
  Bool-cases, ltb,
}
use loca.Protocol.Chat.{Attachment, Message, ChatMode}
use loca.Hub.State.{Room, Hub, room_of, history_limit}
use loca.Hub.Clock.{next_generation_bounds}
use loca.Hub.Attention.Resolution.Frame.{core}
use loca.Hub.Post.Store.{non_empty}
use loca.Hub.Post.Gate.{rate_gate, records_rate}
use loca.Hub.Post.Commit.{push_history, record_time, record_operation, record_turn}
use loca.Hub.Post.Core.{core-record_message, core-commit}
use loca.Hub.Post.Deliver.{Call, Outcome, message_of, generation_of, post}
use loca.Hub.Post.Cases.{rated_room, posted, turn_after, stored_state, post_cases}
use loca.Hub.Post.Rooms.{saved_room}
use loca.Hub.Post.Permission.{Repeats}

-- The ids rise along a history and stay below a bound.
abbrev pub Numbered : ℕ → ℕ → List Message → Type 0
Numbered low high [] = low ≤ high
Numbered low high (m ∷ ms) = (low ≤ m.id) × Numbered (suc m.id) high ms

Numbered-append :
    (low high : ℕ) (ms : List Message) (m : Message)
    → m.id ≡ high
    → Numbered low high ms
    → Numbered low (suc high) (ms ++ m ∷ [])
Numbered-append low high [] m e n = omega arith
Numbered-append low high (x ∷ ms) m e n = (n.0, Numbered-append (suc x.id) high ms m e n.1)

Numbered-lower :
    (low low' high : ℕ) (ms : List Message)
    → low' ≤ low
    → Numbered low high ms
    → Numbered low' high ms
Numbered-lower low low' high [] h n = omega arith
Numbered-lower low low' high (x ∷ ms) h n = (omega arith, n.1)

Numbered-drop :
    (k low high : ℕ) (ms : List Message) → Numbered low high ms → Numbered 0 high (drop k ms)
Numbered-drop zero low high ms n = Numbered-lower low 0 high ms (omega arith) n
Numbered-drop (suc k) low high [] n = omega arith
Numbered-drop (suc k) low high (x ∷ ms) n = Numbered-drop k (suc x.id) high ms n.1

Numbered-raise :
    (low high : ℕ) (ms : List Message) → Numbered low high ms → Numbered low (suc high) ms
Numbered-raise low high [] n = omega arith
Numbered-raise low high (x ∷ ms) n = (n.0, Numbered-raise (suc x.id) high ms n.1)

pub push_history-Numbered :
    (high : ℕ) (ms : List Message) (m : Message)
    → m.id ≡ high
    → Numbered 0 high ms
    → Numbered 0 (suc high) (push_history m ms)
unfolding push_history
push_history-Numbered high ms m e n =
    elim (Bool-cases (ltb history_limit (length (ms ++ m ∷ [])))) [
      | inl long ↦
          rw long (Numbered-drop _ 0 (suc high) (ms ++ m ∷ []) (Numbered-append 0 high ms m e n))
      | inr short ↦ rw short (Numbered-append 0 high ms m e n)
    ]

pub push_history_bound :
    (m : Message) (ms : List Message) → length (push_history m ms) ≤ history_limit
unfolding push_history
push_history_bound m ms =
    ground (arith, length-drop (length (ms ++ m ∷ []) - history_limit) (ms ++ m ∷ []))

-- `drain(0..overflow)` cuts the old end.
push_history-tail :
    (m : Message) (ms : List Message)
    → push_history m ms ≡ drop (length (ms ++ m ∷ []) - 200) (ms ++ m ∷ [])
unfolding push_history
push_history-tail m ms = elim (Bool-cases (ltb history_limit (length (ms ++ m ∷ [])))) [
  | inl long ↦ rw long refl
  | inr short ↦
      let all_fit : length (ms ++ m ∷ []) - 200 ≡ 0 = ground (arith, short) in
      rw (short, all_fit) refl
]

rated_history :
    (now : ℕ) (r : Room) (sender : String) (is_admin : Bool)
    → (rate_gate now r sender is_admin).0.history ≡ r.history
unfolding rate_gate
rated_history now r sender is_admin = ground arith

record_operation_history :
    (op : Option String) (principal : String) (m : Message) (r : Room)
    → (record_operation op principal m r).history ≡ r.history
unfolding record_operation
record_operation_history none principal m r = refl
record_operation_history (some id) principal m r = refl

record_time_history :
    (rated : Bool) (now : ℕ) (sender : String) (r : Room)
    → (record_time rated now sender r).history ≡ r.history
unfolding record_time
record_time_history false now sender r = refl
record_time_history true now sender r = refl

record_turn_history : (turn : Option ChatMode) (r : Room) → (record_turn turn r).history ≡ r.history
unfolding record_turn
record_turn_history none r = refl
record_turn_history (some mode) r = refl

-- The history after a stored message.
pub saved_history :
    (c : Call) (h : Hub) (attachments : List Attachment) (author : Option String)
    → (saved_room c h attachments author).history
      ≡ push_history (posted c h attachments author) (room_of h c.room).history
unfolding core
saved_history c h attachments author =
    ap (λ (r : Room). r.history)
      (core-record_message c.room m (record_operation op c.principal m r₁))
    ∙ ap (push_history m) (
        record_operation_history op c.principal m r₁
        ∙ record_time_history rated c.now m.sender r₀
        ∙ record_turn_history turn (rated_room c h)
        ∙ rated_history c.now (room_of h c.room) c.body.sender c.is_admin)
  where
    m : Message
    m = posted c h attachments author

    op : Option String
    op = non_empty c.body.op_id

    turn : Option ChatMode
    turn = turn_after c h attachments author

    rated : Bool
    rated = records_rate (room_of h c.room) c.is_admin

    r₀ : Room
    r₀ = record_turn turn (rated_room c h)

    r₁ : Room
    r₁ = record_time rated c.now m.sender r₀

saved_state_history :
    (c : Call) (h : Hub) (attachments : List Attachment) (author : Option String)
    → (room_of (stored_state c h attachments author) c.room).history
      ≡ push_history (posted c h attachments author) (room_of h c.room).history
unfolding core
saved_state_history c h attachments author =
    ap (λ (r : Room). r.history) (core-commit c _ _ _ _ _ _ _ _)
    ∙ saved_history c h attachments author

rated_last :
    (now : ℕ) (r : Room) (sender : String) (is_admin : Bool)
    → (rate_gate now r sender is_admin).0.last_msg_ms ≡ r.last_msg_ms
unfolding rate_gate
rated_last now r sender is_admin = ground arith

-- What an accepted message is to its room: it has the next id, its time is later than that of
-- every message before it, and it stands at the end of a history of at most 200.
pub record Recorded (c : Call) (h h' : Hub) (m : Message) : Type 0 where
  pub numbered : m.id ≡ h.next_id
  pub later : (room_of h c.room).last_msg_ms < m.ts
  pub advanced : h.condition_generation < m.ts
  pub not_early : c.now ≤ m.ts
  pub kept :
      (room_of h' c.room).history
      ≡ drop
          (length ((room_of h c.room).history ++ m ∷ []) - 200)
          ((room_of h c.room).history ++ m ∷ [])
  pub bounded : length (room_of h' c.room).history ≤ 200

abbrev pub RecordedOrNot : Call → Hub → Hub × Outcome → Type 0
RecordedOrNot c h (h', ok m) = Repeats c h m ⊎ Recorded c h h' m
RecordedOrNot c h (h', err why) = Unit

stored-Recorded :
    (c : Call) (h : Hub) (attachments : List Attachment) (author : Option String)
    → h.condition_generation < u64_max
    → (room_of h c.room).last_msg_ms < u64_max
    → Recorded c h (stored_state c h attachments author) (posted c h attachments author)
unfolding message_of generation_of
stored-Recorded c h attachments author g l =
    let last = rated_last c.now (room_of h c.room) c.body.sender c.is_admin in
    let bounds =
      next_generation_bounds h.condition_generation c.now (rated_room c h).last_msg_ms g
        (omega (arith, last)) in
    record {
      numbered = refl;
      later = omega (arith, last, bounds.1);
      advanced = bounds.0;
      not_early = bounds.2;
      kept =
          saved_state_history c h attachments author
          ∙ push_history-tail (posted c h attachments author) (room_of h c.room).history;
      bounded = rw (saved_state_history c h attachments author) (push_history_bound _ _);
    }

-- Every accepted message that repeats none has the hub's next id and a time beyond the room's last,
-- beyond every generation and not before the clock, and the room's history is the one before with
-- that message at its end, cut to 200. (The counter of generations and the room's last time are below
-- the largest 64-bit number.)
pub post-Recorded :
    (c : Call) (h : Hub)
    → h.condition_generation < u64_max
    → (room_of h c.room).last_msg_ms < u64_max
    → RecordedOrNot c h (post c h)
post-Recorded c h g l =
    post_cases (RecordedOrNot c h) c h (λ why. tt) (λ m e. inl (inl e)) (λ m e. inl (inr e))
      (λ why. tt) (λ why. tt) (λ attachments author why p. tt)
      (λ attachments author p e. inr (stored-Recorded c h attachments author g l))
