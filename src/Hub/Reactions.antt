-- ===== src/Hub/Reactions.antt =====
-- Reactions to messages (crates/server/src/hub.rs). The store's answers are arguments.
pub mod Allowed
use loca.Base.{
  ℕ, String, Bool, true, false, not, ◌&&◌, Option, none, some, List, [], ◌∷◌, ◌==◌, string_eq,
  nat_eq, if◌then◌else◌, map_option, or_else, unwrap_or, find, contains, Result, ok, err, Answer,
  failed, got,
}
use loca.Base.Dict
use loca.Protocol.Chat.{Message, MessageReaction, MessageReactionEvent}
use loca.Protocol.Frames.{ServerFrame}
use loca.Hub.State.{Hub, Room, send, put_room, is_writable}

pub data ReactionReject : Type 0 where
  invalid_emoji not_found own_message read_only storage : ReactionReject

abbrev pub allowed_emojis : List String
allowed_emojis = "✓" ∷ "✦" ∷ "!" ∷ "♥" ∷ []

-- Whose the message is, by the room's recent history.
unfoldable pub owner_in_history : Hub → String → ℕ → Option String
owner_in_history h room message_id = elim (Dict.lookup room h.rooms) [
  | none ↦ none
  | some r ↦
      map_option (λ (m : Message). m.sender) (find (λ (m : Message). m.id == message_id) r.history)
]

-- Who now reacts so, by the store's list.
unfoldable pub actors_of : List MessageReaction → ℕ → String → String → Bool → List String
actors_of reactions message_id emoji reactor active =
    unwrap_or (if active then reactor ∷ [] else []) (
      map_option (λ (r : MessageReaction). r.actors)
        (find (λ (r : MessageReaction). r.message_id == message_id && r.emoji == emoji) reactions))

unfoldable pub send_reaction : Hub → String → MessageReactionEvent → Hub
unfolding send put_room
send_reaction h room event = elim (Dict.lookup room h.rooms) [
  | none ↦ h
  | some r ↦ put_room h room (send (ServerFrame.reaction event) r)
]

-- Not to one's own message. `stored` is what reactions the store has once it took this one.
unfoldable pub react_to :
    Hub
    → String
    → ℕ
    → String
    → String
    → Bool
    → ℕ
    → String
    → Answer (List MessageReaction)
    → Hub × Result MessageReactionEvent ReactionReject
unfolding actors_of send_reaction
react_to h room message_id reactor emoji active now owner stored =
    if owner == reactor then (h, err ReactionReject.own_message) else elim stored [
      | failed ↦ (h, err ReactionReject.storage)
      | got reactions ↦
          let event : MessageReactionEvent = record {
            message_id = message_id;
            emoji = emoji;
            actors = actors_of reactions message_id emoji reactor active;
            owner = owner;
            reactor = reactor;
            active = active;
            ts = now;
          } in
          (send_reaction h room event, ok event)
    ]

-- `recorded` is the store's answer on whose the message is.
unfoldable pub set_reaction :
    Hub
    → String
    → ℕ
    → String
    → String
    → Bool
    → ℕ
    → Answer (Option String)
    → Answer (List MessageReaction)
    → Hub × Result MessageReactionEvent ReactionReject
unfolding contains is_writable owner_in_history react_to
set_reaction h room message_id reactor emoji active now recorded stored =
    if not (contains emoji allowed_emojis)
    then (h, err ReactionReject.invalid_emoji)
    else if not (is_writable h room)
    then (h, err ReactionReject.read_only)
    else elim recorded [
      | failed ↦ (h, err ReactionReject.storage)
      | got kept ↦ elim (or_else kept (owner_in_history h room message_id)) [
        | none ↦ (h, err ReactionReject.not_found)
        | some owner ↦ react_to h room message_id reactor emoji active now owner stored
      ]
    ]
