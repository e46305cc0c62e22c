-- ===== src/Hub/Attention/Lifecycle/Later.antt =====
-- The order in which an attention's states follow each other, in a room, in all rooms.
use loca.Base.{
  ◌≡◌, refl, subst, ◌∙◌, ◌≤◌, inl, inr, ℕ, String, false, none, some, ◌∷◌, ◌==◌, string_eq, arith,
  Bool-cases,
}
use loca.Base.Dict
use loca.Base.Dict.{Dict}
use loca.Base.Dict.Laws.{lookup-insert}
use loca.Protocol.Attention.{Attention, AttentionStatus, attention_status_eq}
use loca.Hub.State.{Hub, Room, put_room}

abbrev pub rank : AttentionStatus → ℕ
rank AttentionStatus.opened = 0
rank AttentionStatus.claimed = 1
rank AttentionStatus.resolved = 2

-- What an attention is about, less what becomes of it.
abbrev pub content : Attention → Attention
content a = record a {
  status = AttentionStatus.opened;
  delivered_at = none;
  claimed_by = none;
  claimed_at = none;
  resolved_at = none;
}

-- One state of an attention may follow another: its content stays, its status never goes back, and what was
-- written down about a claim, a resolution or a delivery is never changed.
pub record Later (a a' : Attention) : Type 0 where
  pub same : content a ≡ content a'
  pub status : rank a.status ≤ rank a'.status
  pub claim :
      (a.status == AttentionStatus.opened) ≡ false
      → (a'.claimed_by ≡ a.claimed_by) × (a'.claimed_at ≡ a.claimed_at)
  pub resolution : a.status ≡ AttentionStatus.resolved → a'.resolved_at ≡ a.resolved_at
  pub delivery : (at : ℕ) → a.delivered_at ≡ some at → a'.delivered_at ≡ some at

pub Later-refl : (a : Attention) → Later a a
Later-refl a = record {
  same = refl;
  status = omega arith;
  claim = λ e. (refl, refl);
  resolution = λ e. refl;
  delivery = λ at e. e;
}

past_opened :
    (s s' : AttentionStatus)
    → rank s ≤ rank s'
    → (s == AttentionStatus.opened) ≡ false
    → (s' == AttentionStatus.opened) ≡ false
past_opened s s' le e = ground arith

past_resolved :
    (s s' : AttentionStatus)
    → rank s ≤ rank s'
    → s ≡ AttentionStatus.resolved
    → s' ≡ AttentionStatus.resolved
past_resolved s s' le e = ground arith

pub Later-trans : (a b c : Attention) → Later a b → Later b c → Later a c
Later-trans a b c p q = record {
  same = p.same ∙ q.same;
  status = omega (arith, p.status, q.status);
  claim = λ e.
      let next = q.claim (past_opened a.status b.status p.status e) in
      (next.0 ∙ (p.claim e).0, next.1 ∙ (p.claim e).1);
  resolution = λ e. q.resolution (past_resolved a.status b.status p.status e) ∙ p.resolution e;
  delivery = λ at e. q.delivery at (p.delivery at e);
}

-- Every attention is still there, in a later state.
abbrev pub RoomLater : Room → Room → Type 0
RoomLater r r' =
    (id : String) (a : Attention)
    → Dict.lookup id r.attentions ≡ some a
    → (a' : Attention) × (Dict.lookup id r'.attentions ≡ some a') × Later a a'

abbrev pub RoomsLater : Dict String Room → Dict String Room → Type 0
RoomsLater m m' =
    (room : String) (r : Room)
    → Dict.lookup room m ≡ some r
    → (r' : Room) × (Dict.lookup room m' ≡ some r') × RoomLater r r'

pub RoomLater-refl : (r : Room) → RoomLater r r
RoomLater-refl r id a e = (a, e, Later-refl a)

pub RoomsLater-refl : (m : Dict String Room) → RoomsLater m m
RoomsLater-refl m room r e = (r, e, RoomLater-refl r)

pub RoomLater-trans : (r s t : Room) → RoomLater r s → RoomLater s t → RoomLater r t
RoomLater-trans r s t p q id a filed =
    let first = p id a filed in
    let second = q id first.0 first.1 in
    (second.0, second.1, Later-trans a first.0 second.0 first.2 second.2)

pub RoomsLater-trans : (m n k : Dict String Room) → RoomsLater m n → RoomsLater n k → RoomsLater m k
RoomsLater-trans m n k p q room r e =
    let one = p room r e in
    let two = q room one.0 one.1 in (two.0, two.1, RoomLater-trans r one.0 two.0 one.2 two.2)

-- A room in which one attention is replaced by a later state of it.
pub insert-RoomLater :
    (r r' : Room) (id : String) (a a' : Attention)
    → Dict.lookup id r.attentions ≡ some a
    → Later a a'
    → r'.attentions ≡ Dict.insert id a' r.attentions
    → RoomLater r r'
insert-RoomLater r r' id a a' filed later is j b e = elim (Bool-cases (id == j)) [
  | inl hit ↦ (
    a',
    ground (arith, lookup-insert id j a' r.attentions),
    subst (λ (x : Attention). Later x a') (ground (arith, string_eq.equals_iff id j)) later,
  )
  | inr miss ↦ (b, ground (arith, lookup-insert id j a' r.attentions), Later-refl b)
]

-- A new attention, under an id that the room had not.
pub fresh-RoomLater :
    (r r' : Room) (id : String) (a' : Attention)
    → Dict.lookup id r.attentions ≡ none
    → r'.attentions ≡ Dict.insert id a' r.attentions
    → RoomLater r r'
fresh-RoomLater r r' id a' free is j b e =
    (b, ground (arith, lookup-insert id j a' r.attentions, string_eq.equals_iff id j), Later-refl b)

-- The hub in which one room is replaced by a later state of it.
pub put_room-RoomsLater :
    (h : Hub) (room : String) (r r' : Room)
    → Dict.lookup room h.rooms ≡ some r
    → RoomLater r r'
    → RoomsLater h.rooms (put_room h room r').rooms
unfolding put_room
put_room-RoomsLater h room r r' there later other s e = elim (Bool-cases (room == other)) [
  | inl hit ↦
      let same : r ≡ s = ground (arith, string_eq.equals_iff room other) in
      (
        r',
        ground (arith, lookup-insert room other r' h.rooms),
        subst (λ (x : Room). RoomLater x r') same later,
      )
  | inr miss ↦ (s, ground (arith, lookup-insert room other r' h.rooms), RoomLater-refl s)
]

pub cons-RoomsLater :
    (name : String) (r r' : Room) (m m' : Dict String Room)
    → RoomLater r r'
    → RoomsLater m m'
    → RoomsLater ((name, r) ∷ m) ((name, r') ∷ m')
unfolding Dict.lookup
cons-RoomsLater name r r' m m' here rest room s e = elim (Bool-cases (name == room)) [
  | inl hit ↦
      let same : r ≡ s = ground arith in
      (r', ground arith, subst (λ (x : Room). RoomLater x r') same here)
  | inr miss ↦ let found = rest room s (ground arith) in (found.0, ground (arith, found.1), found.2)
]
