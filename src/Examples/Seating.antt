-- ===== src/Examples/Seating.antt =====
-- Seats, moderation and davets on the example.
use loca.Base.{
  ◌≡◌, refl, true, false, some, string_eq, nat_eq, arith, inr, inl, failed, got, contains, ◌==◌,
  Bool-cases, subst,
}
use loca.Base.Dict
use loca.Base.Dict.{AllEntries}
use loca.Protocol.Chat.{SenderType}
use loca.Protocol.Access.{ModAction, Membership}
use loca.Hub.State.{Hub, room_of, is_deleted}
use loca.Hub.Seats.{join, leave, is_full}
use loca.Hub.Seats.Bounds.{SeatsOk, HubSeats, join-HubSeats, leave-HubSeats}
use loca.Hub.Seats.Readers.{Shares, leave-join}
use loca.Hub.Moderation.{prepare, moderate}
use loca.Hub.Moderation.Effects.{PutsOut, Out, moderate-Out}
use loca.Hub.Invites.{invite_member_to_room, member_of, count_for, revoke_invites_for}
use loca.Hub.Invites.Seats.{DavetsOk, held_by, invite-DavetsOk}
use loca.Hub.Invites.Revocation.{Filed, NoneNamed, revoke_invites_for-NoneNamed}
use loca.Examples.Data.{atelier, server}

atelier-SeatsOk : SeatsOk atelier.members
unfolding Dict.contains_key
atelier-SeatsOk = record {
  distinct = (refl, (refl, tt));
  seats = omega arith;
  live = (omega arith, (omega arith, tt));
}

server-HubSeats : HubSeats server
server-HubSeats = (atelier-SeatsOk, tt)

server_here : is_deleted server "atelier" ≡ false
unfolding is_deleted contains
server_here = refl

server-Filed : AllEntries Filed server.invites
server-Filed = (refl, (refl, tt))

join-HubSeats_example : HubSeats (join server "atelier" "c" "cy" SenderType.agent 7).0
join-HubSeats_example = join-HubSeats server "atelier" "c" "cy" SenderType.agent 7 server-HubSeats

leave-HubSeats_example : HubSeats (leave server "atelier" "a")
leave-HubSeats_example = leave-HubSeats server "atelier" "a" server-HubSeats

reader_open : is_full (room_of server "atelier") "a" ≡ false
unfolding is_full room_of Dict.lookup Dict.contains_key
reader_open = refl

second_reader : Shares server "atelier" "a" "ada" SenderType.user
unfolding room_of Dict.lookup
second_reader = inr (
  record { name = "ada"; kind = SenderType.user; count = 1 },
  refl,
  record {
    same_name = refl;
    was_human = refl;
    is_human = refl;
    held = omega arith;
    bound = omega arith;
  },
)

leave-join_example :
    (room_of
      (leave (join server "atelier" "a" "ada" SenderType.user 8).0 "atelier" "a")
      "atelier").members
    ≡ (room_of server "atelier").members
leave-join_example =
    leave-join server "atelier" "a" "ada" SenderType.user 8 server_here reader_open second_reader

-- The server after the davets of "bot" have ended.
unfoldable after_ban : Hub
after_ban = elim (prepare ModAction.ban server "atelier" "bot" true true) [
  | failed ↦ server
  | got h ↦ h
]

bot_prepared : prepare ModAction.ban server "atelier" "bot" true true ≡ got after_ban
unfolding after_ban prepare revoke_invites_for
bot_prepared = refl

moderate-Out_example :
    Out (moderate server "atelier" ModAction.ban "bot" true true).0 "atelier" "bot"
moderate-Out_example =
    moderate-Out PutsOut.by_ban server after_ban "atelier" "bot" true true server_here server-Filed
      bot_prepared

bot_revoked : revoke_invites_for server "atelier" "bot" true ≡ got after_ban
unfolding after_ban prepare revoke_invites_for
bot_revoked = refl

revoke_invites_for-NoneNamed_example : NoneNamed "atelier" "bot" after_ban.invites
revoke_invites_for-NoneNamed_example =
    revoke_invites_for-NoneNamed server after_ban "atelier" "bot" true server-Filed bot_revoked

server-DavetsOk : DavetsOk server.invites
unfolding count_for held_by
server-DavetsOk = record {
  seats = λ room. ground arith;
  single = λ room member. elim (Bool-cases ("m1" == member)) [
    | inl hit ↦
        let other : ("m2" == member) ≡ false =
          subst (λ x. ("m2" == x) ≡ false) ((string_eq.equals_iff "m1" member).0 hit) refl in
        rw (other, hit) (ground arith)
    | inr miss ↦ rw miss (ground arith)
  ];
}

found_token : (m : Membership) → member_of (λ s. false) server "m3" ≡ some m → m.token ≡ "m3"
unfolding member_of Dict.lookup
found_token m e = ground arith

invite-DavetsOk_example :
    DavetsOk (invite_member_to_room (λ s. false) server "m3" "atelier" "ada" "t3" 20 true).0.invites
invite-DavetsOk_example =
    invite-DavetsOk (λ s. false) server "m3" "atelier" "ada" "t3" 20 true found_token
      server-DavetsOk
