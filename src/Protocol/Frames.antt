-- ===== src/Protocol/Frames.antt =====
-- `ServerFrame`: what a room broadcasts (crates/protocol/src/lib.rs). The frames of the room's
-- memory, its notes and its journal are left out, since the modelled operations send none.
use loca.Base.{ℕ, String, Bool, Option, List}
use loca.Protocol.Chat.{Message, Member, MessageReactionEvent, ChatMode}
use loca.Protocol.Settings.{RoomSettings}
use loca.Protocol.Access.{ModState}
use loca.Protocol.Work.{Task, Goal, WaitState}
use loca.Protocol.Attention.{CareSignal, Attention}

pub data ServerFrame : Type 0 where
  history : List Message → ServerFrame
  msg : Message → ServerFrame
  reaction : MessageReactionEvent → ServerFrame
  caretaker : Message → ServerFrame
  turn : List Message → ServerFrame
  members : List Member → ServerFrame
  control : String → ServerFrame
  mode : ChatMode → ServerFrame
  settings : RoomSettings → ServerFrame
  typing : String → Bool → ServerFrame
  kicked : String → Bool → ServerFrame
  evicted : String → String → ℕ → ServerFrame
  moderation : ModState → ServerFrame
  task : Task → ServerFrame
  goal : Goal → ServerFrame
  care : CareSignal → ServerFrame
  attention : Attention → ServerFrame
  wait : String → Option WaitState → ServerFrame
