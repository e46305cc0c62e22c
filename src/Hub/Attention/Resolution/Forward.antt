-- ===== src/Hub/Attention/Resolution/Forward.antt =====
-- What closing the attentions of a condition or a wait does to them (crates/server/src/hub/attention/lifecycle.rs).
use loca.Base.{
  ◌≡◌, refl, inl, inr, ℕ, String, false, List, [], ◌∷◌, ◌==◌, string_eq, arith, Option-cases,
  Bool-cases,
}
use loca.Base.Dict
use loca.Protocol.Attention.{Attention, AttentionStatus, attention_status_eq}
use loca.Protocol.Frames.{ServerFrame}
use loca.Hub.State.{Room, send}
use loca.Hub.Attention.Resolution.{
  resolved_at, resolve_condition_one, resolve_condition_ids, resolve_condition_attention,
  condition_ids, forget_mark, resolve_wait_one, resolve_wait_ids, resolve_wait_attentions, wait_ids,
}
use loca.Hub.Attention.Lifecycle.Later.{
  Later, RoomLater, RoomLater-refl, RoomLater-trans, insert-RoomLater,
}

resolved_at-Later :
    (at : ℕ) (a : Attention)
    → (a.status == AttentionStatus.resolved) ≡ false
    → Later a (resolved_at at a)
unfolding resolved_at
resolved_at-Later at a e = record {
  same = refl;
  status = ground arith;
  claim = λ past. (refl, refl);
  resolution = λ done. ground (arith, done);
  delivery = λ now d. d;
}

resolve_condition_one-RoomLater :
    (at : ℕ) (id : String) (r : Room) → RoomLater r (resolve_condition_one at id r)
unfolding resolve_condition_one send
resolve_condition_one-RoomLater at id r = elim (Option-cases (Dict.lookup id r.attentions)) [
  | inl e ↦ rw (e, resolve_condition_one) (RoomLater-refl r)
  | inr (a, e) ↦ elim (Bool-cases (a.status == AttentionStatus.resolved)) [
    | inl over ↦ rw (e, over, resolve_condition_one) (RoomLater-refl r)
    | inr live ↦
        rw (e, live, resolve_condition_one)
          (insert-RoomLater r
            (send (ServerFrame.attention (resolved_at at a))
              (record r { attentions = Dict.insert id (resolved_at at a) r.attentions }))
            id a (resolved_at at a) e (resolved_at-Later at a live) refl)
  ]
]

resolve_condition_ids-RoomLater :
    (at : ℕ) (ids : List String) (r : Room) → RoomLater r (resolve_condition_ids at ids r)
unfolding resolve_condition_ids
resolve_condition_ids-RoomLater at [] r = RoomLater-refl r
resolve_condition_ids-RoomLater at (id ∷ ids) r =
    RoomLater-trans r (resolve_condition_one at id r)
      (resolve_condition_ids at ids (resolve_condition_one at id r))
      (resolve_condition_one-RoomLater at id r)
      (resolve_condition_ids-RoomLater at ids (resolve_condition_one at id r))

pub resolve_condition_attention-RoomLater :
    (r : Room) (room key : String) (at : ℕ)
    → RoomLater r (resolve_condition_attention r room key at)
unfolding resolve_condition_attention
resolve_condition_attention-RoomLater r room key at =
    resolve_condition_ids-RoomLater at (condition_ids r room key) r

forget_mark_attentions :
    (room id : String) (a : Attention) (r : Room)
    → (forget_mark room id a r).attentions ≡ r.attentions
unfolding forget_mark
forget_mark_attentions room id a r = ground arith

resolve_wait_one-RoomLater :
    (room : String) (at : ℕ) (id : String) (r : Room) → RoomLater r (resolve_wait_one room at id r)
unfolding resolve_wait_one send
resolve_wait_one-RoomLater room at id r = elim (Option-cases (Dict.lookup id r.attentions)) [
  | inl e ↦ rw (e, resolve_wait_one) (RoomLater-refl r)
  | inr (a, e) ↦ elim (Bool-cases (a.status == AttentionStatus.resolved)) [
    | inl over ↦ rw (e, over, resolve_wait_one) (RoomLater-refl r)
    | inr live ↦
        let closed = record r { attentions = Dict.insert id (resolved_at at a) r.attentions } in
        rw (e, live, resolve_wait_one)
          (insert-RoomLater r
            (send (ServerFrame.attention (resolved_at at a)) (forget_mark room id a closed)) id a
            (resolved_at at a) e (resolved_at-Later at a live)
            (forget_mark_attentions room id a closed))
  ]
]

resolve_wait_ids-RoomLater :
    (room : String) (at : ℕ) (ids : List String) (r : Room)
    → RoomLater r (resolve_wait_ids room at ids r)
unfolding resolve_wait_ids
resolve_wait_ids-RoomLater room at [] r = RoomLater-refl r
resolve_wait_ids-RoomLater room at (id ∷ ids) r =
    RoomLater-trans r (resolve_wait_one room at id r)
      (resolve_wait_ids room at ids (resolve_wait_one room at id r))
      (resolve_wait_one-RoomLater room at id r)
      (resolve_wait_ids-RoomLater room at ids (resolve_wait_one room at id r))

pub resolve_wait_attentions-RoomLater :
    (r : Room) (room waiter : String) (at : ℕ)
    → RoomLater r (resolve_wait_attentions r room waiter at)
unfolding resolve_wait_attentions
resolve_wait_attentions-RoomLater r room waiter at =
    resolve_wait_ids-RoomLater room at (wait_ids r room waiter) r
