-- ===== src/Hub/Attention/Lifecycle/Moves.antt =====
-- Runs of the operations on attentions (crates/server/src/hub/attention/lifecycle.rs).
use loca.Base.{
  ◌≡◌, refl, inl, inr, ℕ, String, Bool, Option, none, some, string_eq, option_eq, unwrap_or, Answer,
  ok, Bool-cases, Option-cases,
}
use loca.Base.Dict
use loca.Protocol.Attention.{Attention, attention_status_eq, CareSignal, CreateAttention}
use loca.Protocol.Frames.{ServerFrame}
use loca.Hub.State.{Hub, Room, put_room, send}
use loca.Hub.Attention.Owner.{resolve_attention_owner}
use loca.Hub.Attention.Resolution.{resolve_condition_attention, resolve_wait_attentions}
use loca.Hub.Attention.Resolution.Forward.{
  resolve_condition_attention-RoomLater, resolve_wait_attentions-RoomLater,
}
use loca.Hub.Attention.Lifecycle.{
  create_attention, manual_signal, new_attention, claim_attention, resolve_attention, ack_care,
  DeliveryStore,
}
use loca.Hub.Attention.Lifecycle.Later.{
  RoomsLater, RoomsLater-refl, RoomsLater-trans, fresh-RoomLater, put_room-RoomsLater,
}
use loca.Hub.Attention.Lifecycle.Progress.{
  claim_attention-Later, resolve_attention-Later, ack_care-Later,
}

-- One operation on attentions. A new one is under an id that its room has not, as ids are drawn at random.
pub data Move (h : Hub) : Hub → Type 0 where
  create :
      (trim : String → String) (ready : String → Bool) (room : String) (req : CreateAttention)
      (delivery id : String) (now : ℕ) (saved : Bool) (stored : Option Attention)
      → ((r : Room) (a : Attention)
          → Dict.lookup room h.rooms ≡ some r
          → (create_attention trim ready h room req delivery id now saved stored).1 ≡ ok a
          → Dict.lookup a.id r.attentions ≡ none)
      → Move h (create_attention trim ready h room req delivery id now saved stored).0
  claim :
      (room id actor : String) (now : ℕ) (stored : Answer Bool)
      → Move h (claim_attention h room id actor now stored).0
  resolve :
      (room id actor : String) (principal : Option String) (is_operator : Bool) (now : ℕ)
      (scope : Answer (Option (Option String))) (stored : Answer Bool)
      → Move h (resolve_attention h room id actor principal is_operator now scope stored).0
  acknowledge :
      (s : DeliveryStore) (signal_id owner : String) (now : ℕ)
      → Move h (ack_care s h signal_id owner now).0
  progress :
      (room key : String) (r : Room) (at : ℕ)
      → Dict.lookup room h.rooms ≡ some r
      → Move h (put_room h room (resolve_condition_attention r room key at))
  answer :
      (room waiter : String) (r : Room) (at : ℕ)
      → Dict.lookup room h.rooms ≡ some r
      → Move h (put_room h room (resolve_wait_attentions r room waiter at))

pub data Moves (h : Hub) : Hub → Type 0 where
  start : Moves h h
  step : {h₁ h₂ : Hub} → Moves h h₁ → Move h₁ h₂ → Moves h h₂

sent_attentions :
    (s : CareSignal) (a : Attention) (r : Room)
    → (send (ServerFrame.care s) (
        send
          (ServerFrame.attention a)
          (record r { attentions = Dict.insert a.id a r.attentions }))).attentions
      ≡ Dict.insert a.id a r.attentions
unfolding send
sent_attentions s a r = refl

create_attention-Later :
    (trim : String → String) (ready : String → Bool) (h : Hub) (room : String)
    (req : CreateAttention) (delivery id : String) (now : ℕ) (saved : Bool)
    (stored : Option Attention)
    → ((r : Room) (a : Attention)
        → Dict.lookup room h.rooms ≡ some r
        → (create_attention trim ready h room req delivery id now saved stored).1 ≡ ok a
        → Dict.lookup a.id r.attentions ≡ none)
    → RoomsLater h.rooms
        (create_attention trim ready h room req delivery id now saved stored).0.rooms
unfolding create_attention
create_attention-Later trim ready h room req delivery id now saved stored new =
    elim (Option-cases (Dict.lookup room h.rooms)) [
      | inl e ↦ rw (e, create_attention) (RoomsLater-refl h.rooms)
      | inr (r, e) ↦ elim (Option-cases (resolve_attention_owner trim ready r req.audience)) [
        | inl f ↦ rw (e, f, create_attention) (RoomsLater-refl h.rooms)
        | inr (found, f) ↦ elim (Bool-cases saved) [
          | inr lost ↦ rw (e, f, lost, create_attention) (RoomsLater-refl h.rooms)
          | inl kept ↦
              let s = manual_signal room r req found.0 found.1 delivery id now in
              let a = unwrap_or (new_attention s) stored in
              let r' = send (ServerFrame.care s) (
                send (ServerFrame.attention a)
                  (record r { attentions = Dict.insert a.id a r.attentions })) in
              let h' = record h { care_deliveries = Dict.insert delivery id h.care_deliveries } in
              let made : (create_attention trim ready h room req delivery id now saved stored).1
                  ≡ ok a =
                rw (e, f, kept, create_attention) refl in
              rw (e, f, kept, create_attention)
                (put_room-RoomsLater h' room r r' e
                  (fresh-RoomLater r r' a.id a (new r a e made) (sent_attentions s a r)))
        ]
      ]
    ]

Move-Later : {h h' : Hub} → Move h h' → RoomsLater h.rooms h'.rooms
Move-Later {h} (Move.create trim ready room req delivery id now saved stored new) =
    create_attention-Later trim ready h room req delivery id now saved stored new
Move-Later {h} (Move.claim room id actor now stored) =
    claim_attention-Later h room id actor now stored
Move-Later {h} (Move.resolve room id actor principal is_operator now scope stored) =
    resolve_attention-Later h room id actor principal is_operator now scope stored
Move-Later {h} (Move.acknowledge s signal_id owner now) = ack_care-Later s h signal_id owner now
Move-Later {h} (Move.progress room key r at e) =
    put_room-RoomsLater h room r (resolve_condition_attention r room key at) e
      (resolve_condition_attention-RoomLater r room key at)
Move-Later {h} (Move.answer room waiter r at e) =
    put_room-RoomsLater h room r (resolve_wait_attentions r room waiter at) e
      (resolve_wait_attentions-RoomLater r room waiter at)

-- Under any run of creating attentions (under ids that their room has not), claiming, resolving and acknowledging
-- them, and of progress that closes them,
-- every attention stays in its room with its content, its status never goes back, and what was recorded of a
-- claim, a resolution or a delivery stays as it was.
pub Moves-RoomsLater : (h h' : Hub) → Moves h h' → RoomsLater h.rooms h'.rooms
Moves-RoomsLater h h' Moves.start = RoomsLater-refl h.rooms
Moves-RoomsLater h h' (Moves.step {h₁} r s) =
    RoomsLater-trans h.rooms h₁.rooms h'.rooms (Moves-RoomsLater h h₁ r) (Move-Later s)
