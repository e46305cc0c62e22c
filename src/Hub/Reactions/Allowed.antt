-- ===== src/Hub/Reactions/Allowed.antt =====
-- Which reactions are made (crates/server/src/hub.rs).
use loca.Base.{
  ◌≡◌, ◌≢◌, ◌⊎◌, ◌↔◌, ◌&&◌, ◌||◌, find, if◌then◌else◌, [], ◌∷◌, none, subst, refl, sym, ◌∙◌, ap,
  inl, inr, ℕ, String, Bool, true, false, Option, some, List, ◌==◌, string_eq, nat_eq, arith,
  or_else, contains, Result, ok, Answer, failed, got, Option-cases, Bool-cases, Answer-cases,
}
use loca.Base.Dict
use loca.Protocol.Frames.{ServerFrame}
use loca.Protocol.Chat.{Message, MessageReaction, MessageReactionEvent}
use loca.Hub.State.{Hub, Room, send, put_room, is_writable}
use loca.Hub.Reactions.{
  ReactionReject, allowed_emojis, owner_in_history, actors_of, send_reaction, react_to,
  set_reaction,
}

module _ {A : Type 0} (P : A → Type 0) where
  -- The first of a list with the property.
  pub data First : List A → A → Type 0 where
    here : {x : A} {xs : List A} → P x → First (x ∷ xs) x
    later : {x y : A} {xs : List A} → ¬ P y → First xs x → First (y ∷ xs) x

  unfoldable pub Nowhere : List A → Type 0
  Nowhere [] = Unit {0}
  Nowhere (x ∷ xs) = (¬ P x) × Nowhere xs

  find-First :
      (p : A → Bool)
      → ((x : A) → (p x ≡ true) ↔ P x)
      → (xs : List A)
      → ((find p xs ≡ none) × Nowhere xs) ⊎ ((x : A) × ((find p xs ≡ some x) × First xs x))
  unfolding find Nowhere
  find-First p same [] = inl (refl, tt)
  find-First p same (y ∷ xs) = elim (Bool-cases (p y)) [
    | inl hit ↦ inr (y, (rw hit refl, First.here ((same y).0 hit)))
    | inr miss ↦
        let other : ¬ P y = λ z. cc (sym miss ∙ (same y).1 z) in
        elim (find-First p same xs) [
          | inl (lost, nowhere) ↦ inl (rw miss lost, (other, nowhere))
          | inr (x, (found, first)) ↦ inr (x, (rw miss found, First.later other first))
        ]
  ]

-- A reaction with the sign to the message.
abbrev pub Alike : ℕ → String → MessageReaction → Type 0
Alike message_id emoji x = (x.message_id ≡ message_id) × (x.emoji ≡ emoji)

-- Who reacts so: those whom the store lists first; where it lists none, the reactor, unless the reaction was
-- taken back.
pub data ReactSo (reactions : List MessageReaction) (message_id : ℕ) (reactor emoji : String)
    (active : Bool) : List String → Type 0 where
  listed :
      (x : MessageReaction)
      → First (Alike message_id emoji) reactions x
      → ReactSo reactions message_id reactor emoji active x.actors
  alone :
      Nowhere (Alike message_id emoji) reactions
      → active ≡ true
      → ReactSo reactions message_id reactor emoji active (reactor ∷ [])
  withdrawn :
      Nowhere (Alike message_id emoji) reactions
      → active ≡ false
      → ReactSo reactions message_id reactor emoji active []

-- Whose the message is: by the store, or where it knows nobody, by the room's history.
pub data WrittenBy (h : Hub) (room : String) (message_id : ℕ) (recorded : Answer (Option String))
    (owner : String) : Type 0 where
  by_store : recorded ≡ got (some owner) → WrittenBy h room message_id recorded owner
  by_history :
      recorded ≡ got none
      → (r : Room) (m : Message) → Dict.lookup room h.rooms ≡ some r
      → First (λ (x : Message). x.id ≡ message_id) r.history m
      → m.sender ≡ owner
      → WrittenBy h room message_id recorded owner

-- What the hub is once the frame went out: it goes to the room, where there is one.
pub data SentTo (h : Hub) (room : String) (event : MessageReactionEvent) : Hub → Type 0 where
  no_room : Dict.lookup room h.rooms ≡ none → SentTo h room event h
  in_room :
      (r : Room)
      → Dict.lookup room h.rooms ≡ some r
      → SentTo h room event (record h {
        rooms = Dict.insert room (record r { sent = ServerFrame.reaction event ∷ r.sent }) h.rooms;
      })

-- A reaction that was made.
pub record Reacted (h : Hub) (room : String) (message_id : ℕ) (reactor emoji : String)
    (active : Bool) (now : ℕ) (recorded : Answer (Option String))
    (stored : Answer (List MessageReaction)) (event : MessageReactionEvent) (h' : Hub)
    : Type 0 where
  pub sign : (emoji ≡ "✓") ⊎ ((emoji ≡ "✦") ⊎ ((emoji ≡ "!") ⊎ (emoji ≡ "♥")))
  pub free : is_writable h room ≡ true
  pub owned : WrittenBy h room message_id recorded event.owner
  pub others : event.owner ≢ reactor
  pub asked :
      (event.message_id ≡ message_id)
      × (event.emoji ≡ emoji)
      × (event.reactor ≡ reactor)
      × (event.active ≡ active)
      × (event.ts ≡ now)
  pub reactions : List MessageReaction
  pub saved : stored ≡ got reactions
  pub actors : ReactSo reactions message_id reactor emoji active event.actors
  pub sent : SentTo h room event h'

absurd_sign :
    {a b c d : Bool}
    → (a || (b || (c || (d || false)))) ≡ true
    → a ≡ false
    → b ≡ false
    → c ≡ false
    → ¬ (d ≡ false)
absurd_sign e a b c d = ground arith

alike :
    (message_id : ℕ) (emoji : String) (x : MessageReaction)
    → ((x.message_id == message_id && x.emoji == emoji) ≡ true) ↔ Alike message_id emoji x
alike message_id emoji x =
    ground (arith, nat_eq.equals_iff x.message_id message_id, string_eq.equals_iff x.emoji emoji)

signs :
    (emoji : String)
    → contains emoji allowed_emojis ≡ true
    → (emoji ≡ "✓") ⊎ ((emoji ≡ "✦") ⊎ ((emoji ≡ "!") ⊎ (emoji ≡ "♥")))
unfolding contains
signs emoji e =
    let eq = string_eq.equals_iff in
    elim (Bool-cases ("✓" == emoji)) [
      | inl y ↦ inl (sym ((eq "✓" emoji).0 y))
      | inr n ↦ elim (Bool-cases ("✦" == emoji)) [
        | inl y ↦ inr (inl (sym ((eq "✦" emoji).0 y)))
        | inr n2 ↦ elim (Bool-cases ("!" == emoji)) [
          | inl y ↦ inr (inr (inl (sym ((eq "!" emoji).0 y))))
          | inr n3 ↦ elim (Bool-cases ("♥" == emoji)) [
            | inl y ↦ inr (inr (inr (sym ((eq "♥" emoji).0 y))))
            | inr n4 ↦ elim (absurd_sign e n n2 n3 n4) [ ]
          ]
        ]
      ]
    ]

unlisted :
    (reactions : List MessageReaction) (message_id : ℕ) (reactor emoji : String) (active : Bool)
    → Nowhere (Alike message_id emoji) reactions
    → ReactSo reactions message_id reactor emoji active (if active then reactor ∷ [] else [])
unlisted reactions message_id reactor emoji true nowhere = ReactSo.alone nowhere refl
unlisted reactions message_id reactor emoji false nowhere = ReactSo.withdrawn nowhere refl

actors_of-ReactSo :
    (reactions : List MessageReaction) (message_id : ℕ) (reactor emoji : String) (active : Bool)
    → ReactSo reactions message_id reactor emoji active
        (actors_of reactions message_id emoji reactor active)
unfolding actors_of
actors_of-ReactSo reactions message_id reactor emoji active =
    let R = ReactSo reactions message_id reactor emoji active in
    elim (find-First (Alike message_id emoji)
      (λ (x : MessageReaction). x.message_id == message_id && x.emoji == emoji)
      (alike message_id emoji) reactions) [
        | inr (x, (found, first)) ↦ rw found (ReactSo.listed x first)
        | inl (lost, nowhere) ↦ rw lost (unlisted reactions message_id reactor emoji active nowhere)
      ]

WrittenBy-owner :
    (h : Hub) (room : String) (message_id : ℕ) (recorded : Answer (Option String))
    (kept : Option String) (owner : String)
    → recorded ≡ got kept
    → or_else kept (owner_in_history h room message_id) ≡ some owner
    → WrittenBy h room message_id recorded owner
unfolding owner_in_history
WrittenBy-owner h room message_id recorded (some name) owner known e =
    WrittenBy.by_store (known ∙ ap got (ground arith))
WrittenBy-owner h room message_id recorded none owner known e =
    elim (Option-cases (Dict.lookup room h.rooms)) [
      | inl missing ↦ ground (arith, missing)
      | inr (r, standing) ↦
          elim (find-First (λ (x : Message). x.id ≡ message_id)
            (λ (x : Message). x.id == message_id)
            (λ (x : Message). nat_eq.equals_iff x.id message_id) r.history) [
              | inl (lost, nowhere) ↦ ground (arith, standing, lost)
              | inr (m, (found, first)) ↦
                  WrittenBy.by_history known r m standing first (ground (arith, standing, found))
            ]
    ]

send_reaction-SentTo :
    (h : Hub) (room : String) (event : MessageReactionEvent)
    → SentTo h room event (send_reaction h room event)
unfolding send_reaction send put_room
send_reaction-SentTo h room event = elim (Option-cases (Dict.lookup room h.rooms)) [
  | inl missing ↦ rw (missing, send_reaction) (SentTo.no_room missing)
  | inr (r, standing) ↦ rw (standing, send_reaction) (SentTo.in_room r standing)
]

-- What the tests of a reaction have found.
record Admitted (h : Hub) (room : String) (message_id : ℕ) (reactor emoji : String) (active : Bool)
    (now : ℕ) (recorded : Answer (Option String)) (stored : Answer (List MessageReaction))
    (out : Hub × Result MessageReactionEvent ReactionReject) : Type 0 where
  emoji_allowed : contains emoji allowed_emojis ≡ true
  free : is_writable h room ≡ true
  kept : Option String
  known : recorded ≡ got kept
  owner : String
  owned : or_else kept (owner_in_history h room message_id) ≡ some owner
  rest : react_to h room message_id reactor emoji active now owner stored ≡ out

set_reaction-Admitted :
    (h h' : Hub) (room : String) (message_id : ℕ) (reactor emoji : String) (active : Bool) (now : ℕ)
    (recorded : Answer (Option String)) (stored : Answer (List MessageReaction))
    (event : MessageReactionEvent)
    → set_reaction h room message_id reactor emoji active now recorded stored ≡ (h', ok event)
    → Admitted h room message_id reactor emoji active now recorded stored (h', ok event)
unfolding set_reaction
set_reaction-Admitted h h' room message_id reactor emoji active now recorded stored event e =
    elim (Bool-cases (contains emoji allowed_emojis)) [
      | inr strange ↦ ground (arith, strange)
      | inl sign ↦ elim (Bool-cases (is_writable h room)) [
        | inr shut ↦ ground (arith, sign, shut)
        | inl free ↦ elim (Answer-cases recorded) [
          | inl lost ↦ ground (arith, sign, free, lost)
          | inr (kept, known) ↦
              elim (Option-cases (or_else kept (owner_in_history h room message_id))) [
                | inl nobody ↦ ground (arith, sign, free, known, nobody)
                | inr (owner, owned) ↦ record {
                  emoji_allowed = sign;
                  free = free;
                  kept = kept;
                  known = known;
                  owner = owner;
                  owned = owned;
                  rest = ground (arith, sign, free, known, owned);
                }
              ]
        ]
      ]
    ]

-- What a reaction that the store took is.
record Told (h : Hub) (room : String) (message_id : ℕ) (reactor emoji : String) (active : Bool)
    (now : ℕ) (owner : String) (stored : Answer (List MessageReaction))
    (event : MessageReactionEvent) (h' : Hub) : Type 0 where
  is : event.owner ≡ owner
  asked :
      (event.message_id ≡ message_id)
      × (event.emoji ≡ emoji)
      × (event.reactor ≡ reactor)
      × (event.active ≡ active)
      × (event.ts ≡ now)
  others : (owner == reactor) ≡ false
  reactions : List MessageReaction
  saved : stored ≡ got reactions
  actors : event.actors ≡ actors_of reactions message_id emoji reactor active
  sent : h' ≡ send_reaction h room event

react_to-Told :
    (h h' : Hub) (room : String) (message_id : ℕ) (reactor emoji : String) (active : Bool) (now : ℕ)
    (owner : String) (stored : Answer (List MessageReaction)) (event : MessageReactionEvent)
    → react_to h room message_id reactor emoji active now owner stored ≡ (h', ok event)
    → Told h room message_id reactor emoji active now owner stored event h'
unfolding react_to
react_to-Told h h' room message_id reactor emoji active now owner failed event e =
    elim (Bool-cases (owner == reactor)) [
      | inl own ↦ ground (arith, own)
      | inr other ↦ ground (arith, other)
    ]
react_to-Told h h' room message_id reactor emoji active now owner (got reactions) event e =
    elim (Bool-cases (owner == reactor)) [
      | inl own ↦ ground (arith, own)
      | inr other ↦ record {
        is = ground (arith, other);
        asked = (
          ground (arith, other),
          ground (arith, other),
          ground (arith, other),
          ground (arith, other),
          ground (arith, other),
        );
        others = other;
        reactions = reactions;
        saved = refl;
        actors = ground (arith, other);
        sent = ground (arith, other);
      }
    ]

-- A reaction that is made has one of the four signs, in a room that is open for writing, on a message of somebody
-- else, by the store or, where it knows nobody, by the first message of the room's history with the number. The
-- store took it. The answer has the fields of the request, and as those who react so the ones whom the store lists
-- first for the message and the sign; where it lists none, the reactor alone, or nobody for a reaction that was
-- taken back. The hub changes by the frame to the room only, and not at all where the room is not held.
pub set_reaction-Reacted :
    (h h' : Hub) (room : String) (message_id : ℕ) (reactor emoji : String) (active : Bool) (now : ℕ)
    (recorded : Answer (Option String)) (stored : Answer (List MessageReaction))
    (event : MessageReactionEvent)
    → set_reaction h room message_id reactor emoji active now recorded stored ≡ (h', ok event)
    → Reacted h room message_id reactor emoji active now recorded stored event h'
set_reaction-Reacted h h' room message_id reactor emoji active now recorded stored event e =
    let a =
      set_reaction-Admitted h h' room message_id reactor emoji active now recorded stored event e in
    let t =
      react_to-Told h h' room message_id reactor emoji active now (a.owner) stored event (a.rest) in
    record {
      sign = signs emoji (a.emoji_allowed);
      free = a.free;
      owned =
          WrittenBy-owner h room message_id recorded (a.kept) event.owner (a.known)
            (a.owned ∙ ap some (sym (t.is)));
      others = λ same. cc (sym (t.others) ∙ (string_eq.equals_iff _ reactor).1 (sym (t.is) ∙ same));
      asked = t.asked;
      reactions = t.reactions;
      saved = t.saved;
      actors =
          subst (ReactSo (t.reactions) message_id reactor emoji active) (sym (t.actors))
            (actors_of-ReactSo (t.reactions) message_id reactor emoji active);
      sent = subst (SentTo h room event) (sym (t.sent)) (send_reaction-SentTo h room event);
    }
