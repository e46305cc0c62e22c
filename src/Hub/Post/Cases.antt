-- ===== src/Hub/Post/Cases.antt =====
-- The ways in which a post can end, as one rule for the proofs about `post`.
use loca.Base.{
  String, true, false, Option, none, some, List, ◌≡◌, refl, inl, inr, Bool-cases, Option-cases,
  Answer, failed, got, Result, ok, err, ◌⊎◌, string_eq,
}
use loca.Protocol.Chat.{Attachment, Message, ChatMode}
use loca.Hub.State.{Room, Hub, room_of, put_room, is_deleted}
use loca.Hub.Post.Store.{PostReject, Write, non_empty, stored_reply, resolve_attachments}
use loca.Hub.Post.Gate.{gate, rate_gate, records_rate}
use loca.Hub.Post.Compose.{reply_author, advance_turn}
use loca.Hub.Post.Deliver.{
  Call, Outcome, remembered, row_of, operation_of, write_of, commit, message_of, calls_of, wake_of,
  deliver, post_locked, post,
}

-- The room after the bookkeeping of the rate limit.
abbrev pub rated_room : Call → Hub → Room
rated_room c h = (rate_gate c.now (room_of h c.room) c.body.sender c.is_admin).0

-- The facts of a post that reaches the store.
pub record Passed (c : Call) (h : Hub) : Type 0 where
  pub here : is_deleted h c.room ≡ false
  pub unknown : remembered (room_of h c.room) c.principal (non_empty c.body.op_id) ≡ none
  pub gated : gate (room_of h c.room) c.body.sender c.is_admin ≡ none
  pub unlimited : (rate_gate c.now (room_of h c.room) c.body.sender c.is_admin).1 ≡ none

-- The message that the post composes.
abbrev pub posted : Call → Hub → List Attachment → Option String → Message
posted c h attachments author = message_of c h (rated_room c h) attachments author

abbrev pub turn_after : Call → Hub → List Attachment → Option String → Option ChatMode
turn_after c h attachments author =
    advance_turn (rated_room c h).mode (posted c h attachments author).sender

-- The transaction that this post hands to the store.
abbrev pub write_for : Call → Hub → List Attachment → Option String → Write
write_for c h attachments author =
    let m = posted c h attachments author in
    write_of c h m (row_of (turn_after c h attachments author) (rated_room c h))
      (operation_of c.principal (non_empty c.body.op_id)) (calls_of c h m)
      (wake_of c h (rated_room c h) m).1

-- The state of a post whose message was stored.
abbrev pub stored_state : Call → Hub → List Attachment → Option String → Hub
stored_state c h attachments author =
    let m = posted c h attachments author in
    let (h', wake) = wake_of c h (rated_room c h) m in
    commit c h' (rated_room c h) (non_empty c.body.op_id) m (turn_after c h attachments author)
      (calls_of c h m) wake (records_rate (room_of h c.room) c.is_admin)

Answer-cases {ℓ} : {A : Type ℓ} (a : Answer A) → (a ≡ failed) ⊎ ((x : A) × (a ≡ got x))
Answer-cases failed = inl refl
Answer-cases (got x) = inr (x, refl)

Result-cases {ℓ κ} :
    {A : Type ℓ} {E : Type κ} (a : Result A E) → ((x : A) × (a ≡ ok x)) ⊎ ((e : E) × (a ≡ err e))
Result-cases (ok x) = inl (x, refl)
Result-cases (err e) = inr (e, refl)

module _ {ℓ} (P : Hub × Outcome → Type ℓ) (c : Call) (h : Hub)
    (refused : (why : PostReject) → P (h, err why))
    (replayed : (m : Message)
      → stored_reply c.store c.room c.principal (non_empty c.body.op_id) ≡ got (some m)
      → P (h, ok m))
    (recalled : (m : Message)
      → remembered (room_of h c.room) c.principal (non_empty c.body.op_id) ≡ some m
      → P (put_room h c.room (room_of h c.room), ok m))
    (turned_away : (why : PostReject) → P (put_room h c.room (room_of h c.room), err why))
    (limited : (why : PostReject) → P (put_room h c.room (rated_room c h), err why))
    (unsaved : (attachments : List Attachment) (author : Option String) (why : PostReject)
      → Passed c h
      → P (
        put_room
            (wake_of c h (rated_room c h) (posted c h attachments author)).0
            c.room
            (rated_room c h),
        err why,
      ))
    (saved : (attachments : List Attachment) (author : Option String)
      → Passed c h
      → c.store.insert (write_for c h attachments author) ≡ true
      → P (stored_state c h attachments author, ok (posted c h attachments author))) where
  deliver_cases :
      (attachments : List Attachment) (author : Option String)
      → Passed c h
      → P (
          deliver c h
            (rated_room c h)
            (non_empty c.body.op_id)
            attachments
            author
            (records_rate (room_of h c.room) c.is_admin))
  unfolding deliver
  deliver_cases attachments author p =
      elim (Bool-cases (c.store.insert (write_for c h attachments author))) [
        | inl good ↦ rw good (saved attachments author p good)
        | inr bad ↦ rw bad (unsaved attachments author _ p)
      ]

  passed_cases :
      (attachments : List Attachment)
      → Passed c h
      → P (post_locked c h (non_empty c.body.op_id) attachments)
  unfolding post_locked
  passed_cases attachments p =
      rw (p.unknown, p.gated, p.unlimited, post_locked)
        (elim (Answer-cases (reply_author c.store c.room (rated_room c h) c.body)) [
          | inl bad ↦ rw bad (limited PostReject.storage)
          | inr (author, good) ↦ rw good (deliver_cases attachments author p)
        ])

  post_locked_cases :
      (attachments : List Attachment)
      → is_deleted h c.room ≡ false
      → P (post_locked c h (non_empty c.body.op_id) attachments)
  unfolding post_locked
  post_locked_cases attachments here =
      elim (Option-cases (remembered (room_of h c.room) c.principal (non_empty c.body.op_id))) [
        | inr (m, known) ↦ rw (known, post_locked) (recalled m known)
        | inl unknown ↦ elim (Option-cases (gate (room_of h c.room) c.body.sender c.is_admin)) [
          | inr (why, shut) ↦ rw (unknown, shut, post_locked) (turned_away why)
          | inl gated ↦
              elim (Option-cases (rate_gate c.now (room_of h c.room) c.body.sender c.is_admin).1) [
                | inr (secs, full) ↦
                    rw (unknown, gated, full, post_locked) (limited (PostReject.rate_limited secs))
                | inl unlimited ↦ passed_cases attachments (record {
                  here = here;
                  unknown = unknown;
                  gated = gated;
                  unlimited = unlimited;
                })
              ]
        ]
      ]

  pub post_cases : P (post c h)
  unfolding post
  post_cases = elim (Bool-cases (is_deleted h c.room)) [
    | inl gone ↦ rw gone (refused PostReject.deleted)
    | inr here ↦
        elim (Answer-cases (stored_reply c.store c.room c.principal (non_empty c.body.op_id))) [
          | inl lost ↦ rw (here, lost) (refused PostReject.storage)
          | inr (some m, known) ↦ rw (here, known) (replayed m known)
          | inr (none, unknown) ↦
              elim (Result-cases (resolve_attachments c.store c.room c.body.attachments)) [
                | inr (why, bad) ↦ rw (here, unknown, bad) (refused why)
                | inl (attachments, good) ↦
                    rw (here, unknown, good) (post_locked_cases attachments here)
              ]
        ]
  ]
