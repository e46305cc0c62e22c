-- ===== src/Lib.antt =====
-- A model of loca's server: rooms ("locas") in which humans and agents talk, take turns, hold seats
-- by invitation ("davet"), and share tasks, goals and waits.
--
-- The program's parts. crates/server/src/hub.rs holds all live state behind locks: the rooms, the
-- memberships, the davets, the sessions. The routes call one method of it for each request; a method
-- checks, writes to the store (SQLite, crates/server/src/store.rs), changes the maps and sends frames
-- to the room's listeners. crates/server/src/hub/work has the tasks, goals and waits, and
-- crates/server/src/hub/attention the reminders. crates/protocol/src/lib.rs has the wire types.
--
-- How the model stands to the code. A method that locks the maps and changes them is a function from
-- the hub to the new hub and the answer, so a sequence of calls is a sequence of such steps. A record
-- of the source is a record here with its fields (less those that Hub/State names), an enum a data type, a HashMap an association
-- list, a broadcast channel the list of the frames sent, newest first. What the store answers, the
-- clock's reading, random ids and Unicode tables are arguments. Numbers are native; a 64-bit counter
-- wraps or saturates where the source's does.
--
--   Base          tests, key equality, lists, dictionaries with their laws, words, texts
--   Protocol      the types of crates/protocol/src/lib.rs
--   Hub/State     Room, Hub, room_mut, is_deleted, is_archived, is_banned
--   Hub/Clock     next_condition_generation
--   Hub/Seats     join, leave, member_list; Bounds and Readers prove
--   Hub/RateLimit the sliding window inside post; Kept and Knocks, over a room and all who post to it,
--                 have the rules by which Window proves; Retry proves
--   Hub/Attention Resolution has resolve_condition_attention and resolve_wait_attentions, Addressing
--                 addressed_caretakers, Owner resolve_attention_owner and caretaker_owns_attention,
--                 Lifecycle create_attention, claim_attention, resolve_attention and ack_care,
--                 RuntimeHealth report_runtime_health; Resolution/Forward, Lifecycle/Later, Progress,
--                 Moves and Once, and RuntimeHealth/Stuck prove
--   Hub/Post      post in stages: Store (what it asks of the store), Gate (archive, moderation, mode,
--                 rate), Compose (message, summons, wake-up, turn), Commit (what it changes), Deliver
--                 (the whole); Cases, Core and Rooms are the rules by which Permission, Refusal,
--                 History, Replay and Repeat prove
--   Hub/Settings  set_mode, set_settings, set_lead, expire_live; Bounds and Turns prove
--   Hub/Invites   invite_member_to_room, add_invite, revoke_invite, revoke_invites_for; Seats and
--                 Revocation prove
--   Hub/Door      resolve_authority, may_enter, enter_decision, seat_identity; Sessions has the session tokens; Entry
--                 and Ruling prove
--   Hub/Members   admit_member, revoke_member, set_member_suspended, second masters, the lobby; Revocation
--                 and Shut prove
--   Hub/Admission create_join_request, announce_join_request, approve_join_request and the limit on
--                 attempts; Sources proves
--   Hub/Reactions set_reaction; Allowed proves
--   Hub/Moderation  moderate, delete_room, subscribe; Effects proves
--   Hub/Work      the policy of crates/server/src/hub/work/policy.rs; Tasks (task.rs), Goals (goal.rs),
--                 Waits (wait.rs); Authority, Single, Leads, Waits/Cycles and Waits/Waiting prove
--   Routes/Handler  a handler as a chain of steps that go on, refuse or panic
--   Routes/Access crates/server/src/routes/access.rs with actor_of, room_decision_of and
--                 is_room_operator_req of routes/rooms.rs, and is_loca_operator; Rank says who a
--                 caller is and may be as relations of their own; Rank/Sound, Rank/Operating and
--                 Rank/Acting that the checks go by them; Settled, Safety, Steps and Authority are
--                 the rules by which the handlers' theorems go
--   Routes/Work   crates/server/src/routes/work.rs; Requests has runs of requests, Answers, Safety,
--                 Invariants, Order and Declaring prove
--   Routes/Attention  the handlers of attentions of crates/server/src/routes/attention.rs; Quiet and
--                 Requests prove
--   Routes/Rooms  set_mode, set_lead, set_settings, create_invite, moderate and delete_room of
--                 crates/server/src/routes/rooms.rs; Running proves
--   Examples      runs of the theorems on a small server
--
-- Fuel. The loop of wait_cycle_after runs on fuel, two steps more than the room has waits; a theorem
-- shows that this is always enough. show prints a number with as many steps as its value and one.
--
-- Panics. A handler that panics answers panicked, and update_task answers TaskError.panicked where the
-- source takes the goal of a found id out of the map and expects it there; no other error stands for it.
--
-- Not modelled: SQL and files (store, attachments, wiki), the routes of memberships and content, the
-- sockets, JSON, the command line, the desktop shell, the clients in other languages; of the hub, the
-- scheduler of reminders, the replay of pending signals, the stock of admissions, pairing, notes, the journal and memory.
pub mod Base
pub mod Protocol
pub mod Hub
pub mod Routes
pub mod Examples
