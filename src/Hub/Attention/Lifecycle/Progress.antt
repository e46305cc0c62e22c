-- ===== src/Hub/Attention/Lifecycle/Progress.antt =====
-- What claiming, resolving and acknowledging do to attentions (crates/server/src/hub/attention/lifecycle.rs).
use loca.Base.{
  ◌≡◌, refl, inl, inr, ℕ, String, Bool, false, Option, none, some, [], ◌∷◌, ◌==◌, string_eq,
  option_eq, arith, ◌||◌, or_else, Answer, Bool-cases, Option-cases, Answer-cases,
}
use loca.Base.Dict
use loca.Base.Dict.{Dict}
use loca.Protocol.Attention.{Attention, AttentionStatus, attention_status_eq}
use loca.Hub.State.{Hub, Room, put_room, send}
use loca.Hub.Attention.Lifecycle.{
  claim_attention, put_claim, close_attention, put_resolution, resolve_attention, may_resolve,
  ack_care, acknowledged, mark_delivered, replace_attention, deliver_attention, DeliveryStore,
  is_hot_ack, memory_attention,
}
use loca.Hub.Attention.Lifecycle.Later.{
  Later, RoomLater, RoomsLater, RoomLater-refl, RoomsLater-refl, insert-RoomLater,
  put_room-RoomsLater, cons-RoomsLater,
}

put_claim-Later :
    (actor : String) (now : ℕ) (a : Attention)
    → a.status ≡ AttentionStatus.opened
    → Later a (put_claim actor now a)
unfolding put_claim
put_claim-Later actor now a e = record {
  same = refl;
  status = ground (arith, e);
  claim = λ past. ground (arith, e);
  resolution = λ done. refl;
  delivery = λ at d. d;
}

put_resolution-Later :
    (now : ℕ) (a : Attention)
    → (a.status == AttentionStatus.resolved) ≡ false
    → Later a (put_resolution now a)
unfolding put_resolution
put_resolution-Later now a e = record {
  same = refl;
  status = ground arith;
  claim = λ past. (refl, refl);
  resolution = λ done. ground (arith, done);
  delivery = λ at d. d;
}

deliver_attention-Later : (now : ℕ) (a : Attention) → Later a (deliver_attention now a)
unfolding deliver_attention
deliver_attention-Later now a = record {
  same = refl;
  status = omega arith;
  claim = λ past. (refl, refl);
  resolution = λ done. refl;
  delivery = λ at d. ground (arith, d);
}

replace_attention-RoomLater :
    (id : String) (r : Room) (a a' : Attention)
    → Dict.lookup id r.attentions ≡ some a
    → Later a a'
    → RoomLater r (replace_attention id a' r)
unfolding replace_attention send
replace_attention-RoomLater id r a a' f later =
    insert-RoomLater r (replace_attention id a' r) id a a' f later refl

replace-Later :
    (h : Hub) (room id : String) (r : Room) (a a' : Attention)
    → Dict.lookup room h.rooms ≡ some r
    → Dict.lookup id r.attentions ≡ some a
    → Later a a'
    → RoomsLater h.rooms (put_room h room (replace_attention id a' r)).rooms
replace-Later h room id r a a' e f later =
    put_room-RoomsLater h room r (replace_attention id a' r) e
      (replace_attention-RoomLater id r a a' f later)

pub claim_attention-Later :
    (h : Hub) (room id actor : String) (now : ℕ) (stored : Answer Bool)
    → RoomsLater h.rooms (claim_attention h room id actor now stored).0.rooms
unfolding claim_attention
claim_attention-Later h room id actor now stored = elim (Option-cases (Dict.lookup room h.rooms)) [
  | inl e ↦ rw (e, claim_attention) (RoomsLater-refl h.rooms)
  | inr (r, e) ↦ elim (Option-cases (Dict.lookup id r.attentions)) [
    | inl f ↦ rw (e, f, claim_attention) (RoomsLater-refl h.rooms)
    | inr (a, f) ↦ elim (Bool-cases (a.owner == some actor)) [
      | inr other ↦ rw (e, f, other, claim_attention) (RoomsLater-refl h.rooms)
      | inl own ↦ elim (Bool-cases (a.status == AttentionStatus.opened)) [
        | inr past ↦ rw (e, f, own, past, claim_attention) (RoomsLater-refl h.rooms)
        | inl fresh ↦ elim (Answer-cases stored) [
          | inl lost ↦ rw (e, f, own, fresh, lost, claim_attention) (RoomsLater-refl h.rooms)
          | inr (made, s) ↦ elim (Bool-cases made) [
            | inr refused ↦
                rw (e, f, own, fresh, s, refused, claim_attention) (RoomsLater-refl h.rooms)
            | inl done ↦
                rw (e, f, own, fresh, s, done, claim_attention)
                  (replace-Later h room id r a (put_claim actor now a) e f (
                    put_claim-Later actor now a
                      ((attention_status_eq.equals_iff a.status AttentionStatus.opened).0 fresh)))
          ]
        ]
      ]
    ]
  ]
]

close_attention-Later :
    (h : Hub) (room id : String) (r : Room) (a : Attention) (now : ℕ) (stored : Answer Bool)
    → Dict.lookup room h.rooms ≡ some r
    → Dict.lookup id r.attentions ≡ some a
    → RoomsLater h.rooms (close_attention h room id r a now stored).0.rooms
unfolding close_attention
close_attention-Later h room id r a now stored e f =
    elim (Bool-cases (a.status == AttentionStatus.resolved)) [
      | inl over ↦ rw (over, close_attention) (RoomsLater-refl h.rooms)
      | inr live ↦ elim (Answer-cases stored) [
        | inl lost ↦ rw (live, lost, close_attention) (RoomsLater-refl h.rooms)
        | inr (made, s) ↦ elim (Bool-cases made) [
          | inr refused ↦ rw (live, s, refused, close_attention) (RoomsLater-refl h.rooms)
          | inl done ↦
              rw (live, s, done, close_attention)
                (replace-Later h room id r a (put_resolution now a) e f
                  (put_resolution-Later now a live))
        ]
      ]
    ]

pub resolve_attention-Later :
    (h : Hub) (room id actor : String) (principal : Option String) (is_operator : Bool) (now : ℕ)
    (scope : Answer (Option (Option String))) (stored : Answer Bool)
    → RoomsLater h.rooms
        (resolve_attention h room id actor principal is_operator now scope stored).0.rooms
unfolding resolve_attention
resolve_attention-Later h room id actor principal is_operator now scope stored =
    elim (Option-cases (Dict.lookup room h.rooms)) [
      | inl e ↦ rw (e, resolve_attention) (RoomsLater-refl h.rooms)
      | inr (r, e) ↦ elim (Option-cases (Dict.lookup id r.attentions)) [
        | inl f ↦ rw (e, f, resolve_attention) (RoomsLater-refl h.rooms)
        | inr (a, f) ↦
            let closes = close_attention-Later h room id r a now stored e f in
            elim (Bool-cases is_operator) [
              | inl op ↦ rw (e, f, op, resolve_attention) closes
              | inr plain ↦ elim (Answer-cases scope) [
                | inl lost ↦ rw (e, f, plain, lost, resolve_attention) (RoomsLater-refl h.rooms)
                | inr (found, s) ↦ elim (Bool-cases (may_resolve a actor principal found)) [
                  | inl may ↦ rw (e, f, plain, s, may, resolve_attention) closes
                  | inr not_his ↦
                      rw (e, f, plain, s, not_his, resolve_attention) (RoomsLater-refl h.rooms)
                ]
              ]
            ]
      ]
    ]

mark_delivered-Later :
    (id : String) (now : ℕ) (m : Dict String Room) → RoomsLater m (mark_delivered id now m)
unfolding mark_delivered
mark_delivered-Later id now [] = RoomsLater-refl []
mark_delivered-Later id now ((name, r) ∷ m) = elim (Option-cases (Dict.lookup id r.attentions)) [
  | inl e ↦
      rw (e, mark_delivered)
        (cons-RoomsLater name r r m (mark_delivered id now m) (RoomLater-refl r)
          (mark_delivered-Later id now m))
  | inr (a, e) ↦
      rw (e, mark_delivered)
        (cons-RoomsLater name r (replace_attention id (deliver_attention now a) r) m m
          (replace_attention-RoomLater id r a (deliver_attention now a) e
            (deliver_attention-Later now a))
          (RoomsLater-refl m))
]

pub ack_care-Later :
    (s : DeliveryStore) (h : Hub) (signal_id owner : String) (now : ℕ)
    → RoomsLater h.rooms (ack_care s h signal_id owner now).0.rooms
unfolding ack_care acknowledged
ack_care-Later s h signal_id owner now =
    let hot = Dict.lookup signal_id h.care_deliveries in
    elim (Option-cases (or_else hot (s.attention_id_for_delivery signal_id))) [
      | inl e ↦ rw (e, ack_care) (RoomsLater-refl h.rooms)
      | inr (id, e) ↦
          let known = or_else (memory_attention id h.rooms) (s.attention id) in
          let owned =
            (elim known as (λ _. Option String) [ none ↦ none | some a ↦ a.owner ]) == some owner in
          elim (Bool-cases owned) [
            | inr other ↦ rw (e, other, ack_care) (RoomsLater-refl h.rooms)
            | inl own ↦ elim (Answer-cases s.ack_care_scoped) [
              | inl lost ↦ rw (e, own, lost, ack_care) (RoomsLater-refl h.rooms)
              | inr (recorded, r) ↦
                  elim (Bool-cases (recorded || is_hot_ack s hot (memory_attention id h.rooms))) [
                    | inl done ↦
                        rw (e, own, r, done, ack_care) (mark_delivered-Later id now h.rooms)
                    | inr nothing ↦ rw (e, own, r, nothing, ack_care) (RoomsLater-refl h.rooms)
                  ]
            ]
          ]
    ]
