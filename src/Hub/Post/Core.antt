-- ===== src/Hub/Post/Core.antt =====
-- What the bookkeeping of attentions, waits and frames leaves alone in a room: everything else.
use loca.Base.{
  ℕ, String, Bool, Option, none, some, List, [], ◌∷◌, ◌≡◌, refl, ◌∙◌, ap, string_eq, pair_eq,
}
use loca.Base.Dict
use loca.Protocol.Chat.{Message, ChatMode}
use loca.Protocol.Work.{WaitState}
use loca.Protocol.Attention.{Attention, CareSignal, attention_status_eq}
use loca.Hub.State.{Room, Hub, room_of, room_exists}
use loca.Hub.Seats.Readers.{room_of-put_room}
use loca.Hub.Attention.Resolution.Frame.{
  core, core-resolve_condition_attention, core-resolve_wait_attentions,
}
use loca.Hub.Post.Store.{PostStore}
use loca.Hub.Post.Commit.{
  record_time, record_operation, record_turn, record_message, record_summons, record_wake,
  push_history, file_attention,
}
use loca.Hub.Post.Deliver.{Call, commit}

file_core : (a : Attention) (r : Room) → core (file_attention a r) ≡ core r
unfolding core file_attention
file_core a r = refl

pub core-record_summons :
    (store : PostStore) (home : Bool) (calls : List CareSignal) (h : Hub) (r : Room)
    → core (record_summons store home calls h r).1 ≡ core r
unfolding record_summons core
core-record_summons store home [] h r = refl
core-record_summons store home (s ∷ rest) h r = core-record_summons store home rest _ _

pub core-record_wake :
    (store : PostStore) (room : String) (now : ℕ) (wake : Option (WaitState × CareSignal)) (h : Hub)
    (r : Room)
    → core (record_wake store room now wake h r).1 ≡ core r
unfolding record_wake core
core-record_wake store room now none h r = refl
core-record_wake store room now (some (wait, wake)) h r =
    core-resolve_wait_attentions (record r { waits = Dict.insert wait.waiter wait r.waits }) room
      wait.waiter now

pub core-record_message :
    (room : String) (m : Message) (r : Room)
    → core (record_message room m r)
      ≡ core (record r { last_msg_ms = m.ts; history = push_history m r.history })
unfolding record_message core
core-record_message room m r =
    ap (λ (x : Room). record x { last_msg_ms = m.ts; history = push_history m x.history })
      (core-resolve_condition_attention
        (record r { care_marks = Dict.remove "silence" r.care_marks }) room "silence" m.ts)

-- The room after a stored message, but for frames, attentions, waits and care marks.
pub core-commit :
    (c : Call) (h : Hub) (r : Room) (op : Option String) (m : Message) (turn : Option ChatMode)
    (calls : List CareSignal) (wake : Option (WaitState × CareSignal)) (rated : Bool)
    → core (room_of (commit c h r op m turn calls wake rated) c.room)
      ≡ core (
          record_message c.room m (
            record_operation op c.principal m
              (record_time rated c.now m.sender (record_turn turn r))))
unfolding commit
core-commit c h r op m turn calls wake rated = rw (room_of-put_room _ c.room _) (
    core-record_wake c.store c.room c.now wake _ _
    ∙ core-record_summons c.store (room_exists h h.home_room) calls h _)
