-- ===== src/Hub/Post/Rooms.antt =====
-- Invariants of rooms under a post: a rule for a property that frames, attentions, waits and care
-- marks have no part in.
use loca.Base.{
  ℕ, String, Bool, true, false, Option, none, some, List, [], ◌∷◌, ◌≡◌, refl, sym, ◌∙◌, inl, inr,
  Option-cases, arith, string_eq,
}
use loca.Base.Dict
use loca.Base.Dict.{AllEntries}
use loca.Base.Dict.Laws.{AllEntries-insert, AllEntries-lookup}
use loca.Protocol.Chat.{Attachment, Message, ChatMode}
use loca.Protocol.Work.{WaitState}
use loca.Protocol.Attention.{CareSignal}
use loca.Hub.State.{Room, Hub, room_of, put_room, new_room, room_exists}
use loca.Hub.Attention.Resolution.Frame.{core}
use loca.Hub.Post.Store.{PostStore, non_empty}
use loca.Hub.Post.Gate.{records_rate}
use loca.Hub.Post.Compose.{wait_wake}
use loca.Hub.Post.Commit.{
  record_time, record_operation, record_turn, record_message, record_summons, record_wake,
  deliver_to, send_home,
}
use loca.Hub.Post.Deliver.{Call, Outcome, commit, wake_of, spent, calls_of, post}
use loca.Hub.Post.Core.{core-record_summons, core-record_wake}
use loca.Hub.Post.Cases.{rated_room, Passed, posted, turn_after, post_cases}

wait_wake_rooms :
    (delivery room : String) (now : ℕ) (h : Hub) (r : Room) (m : Message) (calls : List CareSignal)
    → (wait_wake delivery room now h r m calls).0.rooms ≡ h.rooms
unfolding wait_wake
wait_wake_rooms delivery room now h r m (s ∷ rest) = refl
wait_wake_rooms delivery room now h r m [] = ground arith

pub wake_of_rooms :
    (c : Call) (h : Hub) (r : Room) (m : Message) → (wake_of c h r m).0.rooms ≡ h.rooms
unfolding wake_of spent
wake_of_rooms c h r m = wait_wake_rooms c.delivery c.room c.now (spent c h r) r m (calls_of c h m)

-- The room of a stored post, before the frames and attentions of its wake-ups.
abbrev pub saved_room : Call → Hub → List Attachment → Option String → Room
saved_room c h attachments author =
    let m = posted c h attachments author in
    record_message c.room m (
      record_operation (non_empty c.body.op_id) c.principal m (
        record_time (records_rate (room_of h c.room) c.is_admin) c.now m.sender
          (record_turn (turn_after c h attachments author) (rated_room c h))))

module _ {ℓ} (P : String → Room → Type ℓ)
    (P-core : (name : String) (r r' : Room) → core r ≡ core r' → P name r → P name r') where
  pub room_of-P :
      (h : Hub) (room : String)
      → P room (new_room ChatMode.free h.default_settings)
      → AllEntries P h.rooms
      → P room (room_of h room)
  unfolding room_of
  room_of-P h room new all = elim (Option-cases (Dict.lookup room h.rooms)) [
    | inl e ↦ rw e new
    | inr (r, e) ↦ rw e (AllEntries-lookup P room r h.rooms all e)
  ]

  pub put_room-P :
      (h : Hub) (room : String) (r : Room)
      → P room r
      → AllEntries P h.rooms
      → AllEntries P (put_room h room r).rooms
  unfolding put_room
  put_room-P h room r p all = AllEntries-insert P room r h.rooms p all

  send_home-P :
      (home : Bool) (s : CareSignal) (h : Hub)
      → AllEntries P h.rooms
      → AllEntries P (send_home home s h).rooms
  unfolding send_home core
  send_home-P false s h all = all
  send_home-P true s h all = elim (Option-cases (Dict.lookup h.home_room h.rooms)) [
    | inl e ↦ rw (e, send_home) all
    | inr (r, e) ↦
        rw (e, send_home)
          (AllEntries-insert P h.home_room _ h.rooms
            (P-core h.home_room r _ refl (AllEntries-lookup P h.home_room r h.rooms all e)) all)
  ]

  record_summons-P :
      (store : PostStore) (home : Bool) (calls : List CareSignal) (h : Hub) (r : Room)
      → AllEntries P h.rooms
      → AllEntries P (record_summons store home calls h r).0.rooms
  unfolding record_summons
  record_summons-P store home [] h r all = all
  record_summons-P store home (s ∷ rest) h r all =
      record_summons-P store home rest (send_home home s (deliver_to s h)) _
        (send_home-P home s (deliver_to s h) all)

  record_wake_rooms :
      (store : PostStore) (room : String) (now : ℕ) (wake : Option (WaitState × CareSignal))
      (h : Hub) (r : Room)
      → (record_wake store room now wake h r).0.rooms ≡ h.rooms
  unfolding record_wake
  record_wake_rooms store room now none h r = refl
  record_wake_rooms store room now (some (wait, wake)) h r = refl

  pub commit-P :
      (c : Call) (h : Hub) (r : Room) (op : Option String) (m : Message) (turn : Option ChatMode)
      (calls : List CareSignal) (wake : Option (WaitState × CareSignal)) (rated : Bool)
      → P c.room (
          record_message c.room m (
            record_operation op c.principal m
              (record_time rated c.now m.sender (record_turn turn r))))
      → AllEntries P h.rooms
      → AllEntries P (commit c h r op m turn calls wake rated).rooms
  unfolding commit put_room
  commit-P c h r op m turn calls wake rated p all =
      AllEntries-insert P c.room _ _
        (P-core c.room _ _
          (sym (
            core-record_wake c.store c.room c.now wake _ _
            ∙ core-record_summons c.store (room_exists h h.home_room) calls h _))
          p)
        (rw (record_wake_rooms c.store c.room c.now wake)
          (record_summons-P c.store (room_exists h h.home_room) calls h _ all))

  -- A property of rooms survives every post if it holds of a new room, does not look at the
  -- bookkeeping of the rate limit, and holds of the room with the message.
  pub post-P :
      (c : Call) (h : Hub)
      → P c.room (new_room ChatMode.free h.default_settings)
      → (P c.room (room_of h c.room) → P c.room (rated_room c h))
      → ((attachments : List Attachment) (author : Option String)
          → Passed c h
          → P c.room (room_of h c.room)
          → P c.room (saved_room c h attachments author))
      → AllEntries P h.rooms
      → AllEntries P (post c h).0.rooms
  unfolding put_room
  post-P c h new rated saved all =
      post_cases (λ (s : Hub × Outcome). AllEntries P s.0.rooms) c h (λ why. all) (λ m e. all)
        (λ m e. put_room-P h c.room _ old all) (λ why. put_room-P h c.room _ old all)
        (λ why. put_room-P h c.room _ (rated old) all)
        (λ attachments author why p.
          AllEntries-insert P c.room _ _ (rated old)
            (rw (wake_of_rooms c h (rated_room c h) (posted c h attachments author)) all))
        (λ attachments author p e.
          commit-P c _ _ _ _ _ _ _ _ (saved attachments author p old)
            (rw (wake_of_rooms c h (rated_room c h) (posted c h attachments author)) all))
    where
      old : P c.room (room_of h c.room)
      old = room_of-P h c.room new all
