-- ===== src/Hub/Moderation/Effects.antt =====
-- What moderation achieves.
use loca.Base.{
  ◌≡◌, subst, String, Bool, true, false, not, [], ◌∷◌, ◌==◌, string_eq, if◌then◌else◌, arith,
  contains-add, beq_refl, failed, got, Bool-cases, inl, inr, ap, Answer-cases,
}
use loca.Base.Dict
use loca.Base.Dict.{Dict, AllEntries}
use loca.Base.Dict.Laws.{AllEntries-retain, Distinct-retain, length-retain-le}
use loca.Protocol.Access.{ModAction}
use loca.Hub.State.{Seat, Room, Hub, room_of, put_room, is_deleted, is_banned}
use loca.Hub.Seats.Readers.{lookup-put_room, room_of-put_room}
use loca.Hub.Attention.Resolution.Frame.{core}
use loca.Hub.Seats.Bounds.{SeatsOk, HubSeats, RoomSeats, Live, room_of-SeatsOk, put_room-HubSeats}
use loca.Hub.Invites.{revoke_invites_for}
use loca.Hub.Invites.Revocation.{
  Filed, NoneNamed, revoke_invites_for-NoneNamed, revoke_invites_for-P,
}
use loca.Hub.Moderation.{act, prepare, moderate}

-- The actions that put someone out.
pub data PutsOut : ModAction → Type 0 where
  by_kick : PutsOut ModAction.kick
  by_ban : PutsOut ModAction.ban
  by_release : PutsOut ModAction.release

abbrev pub NotNamed : String → String → Seat → Type 0
NotNamed name id s = (s.name == name) ≡ false

dropped :
    (name : String) (m : Dict String Seat)
    → AllEntries (NotNamed name) (Dict.retain (λ id s. not (s.name == name)) m)
unfolding Dict.retain
dropped name [] = tt
dropped name ((id, s) ∷ m) = elim (Bool-cases (s.name == name)) [
  | inl hit ↦ rw hit (dropped name m)
  | inr miss ↦ rw miss (miss, dropped name m)
]

act_members :
    {action : ModAction}
    → PutsOut action
    → (name : String) (r : Room) → AllEntries (NotNamed name) (act action name r).members
unfolding act
act_members by_kick name r = dropped name r.members
act_members by_ban name r = dropped name r.members
act_members by_release name r = dropped name r.members

prepared :
    {action : ModAction}
    → PutsOut action
    → (h h' : Hub) (room name : String) (saved_ban saved_davets : Bool)
    → prepare action h room name saved_ban saved_davets ≡ got h'
    → revoke_invites_for h room name saved_davets ≡ got h'
unfolding prepare
prepared by_kick h h' room name saved_ban saved_davets e = e
prepared by_ban h h' room name saved_ban saved_davets e = ground arith
prepared by_release h h' room name saved_ban saved_davets e = e

-- Nobody of this name has a seat or a davet in the room.
pub record Out (h : Hub) (room name : String) : Type 0 where
  pub no_seat : AllEntries (NotNamed name) (room_of h room).members
  pub no_davet : NoneNamed room name h.invites

moderate_got :
    (h h' : Hub) (room name : String) (action : ModAction) (saved_ban saved_davets : Bool)
    → is_deleted h room ≡ false
    → prepare action h room name saved_ban saved_davets ≡ got h'
    → (moderate h room action name saved_ban saved_davets).0
      ≡ put_room h' room (act action name (room_of h' room))
unfolding moderate
moderate_got h h' room name action saved_ban saved_davets here e = rw (here, e, moderate)

-- A kick, a ban or a release that the store takes, in a room that is not sealed and where every davet is filed
-- under its own token, leaves nobody of the name in a seat of the room, and no davet of the name for it.
pub moderate-Out :
    {action : ModAction}
    → PutsOut action
    → (h h' : Hub) (room name : String) (saved_ban saved_davets : Bool) → is_deleted h room ≡ false
    → AllEntries Filed h.invites
    → prepare action h room name saved_ban saved_davets ≡ got h'
    → Out (moderate h room action name saved_ban saved_davets).0 room name
unfolding put_room
moderate-Out {action} out h h' room name saved_ban saved_davets here filed e =
    rw (moderate_got h h' room name action saved_ban saved_davets here e) (record {
      no_seat =
          rw (room_of-put_room h' room (act action name (room_of h' room)))
            (act_members out name (room_of h' room));
      no_davet =
          revoke_invites_for-NoneNamed h h' room name saved_davets filed
            (prepared out h h' room name saved_ban saved_davets e);
    })

-- A ban that succeeds is in force: the name is banned from the room.
moderate-is_banned :
    (h h' : Hub) (room name : String) (saved_ban saved_davets : Bool)
    → is_deleted h room ≡ false
    → prepare ModAction.ban h room name saved_ban saved_davets ≡ got h'
    → is_banned (moderate h room ModAction.ban name saved_ban saved_davets).0 room name ≡ true
unfolding is_banned act
moderate-is_banned h h' room name saved_ban saved_davets here e =
    rw
      (
        moderate_got h h' room name ModAction.ban saved_ban saved_davets here e,
        is_banned,
        lookup-put_room h' room (act ModAction.ban name (room_of h' room)),
      )
      (ground (arith, contains-add name name (room_of h' room).banned, beq_refl name))

drop_seats-SeatsOk :
    (name : String) (m : Dict String Seat)
    → SeatsOk m
    → SeatsOk (Dict.retain (λ id s. not (s.name == name)) m)
drop_seats-SeatsOk name m v = record {
  distinct = Distinct-retain (λ id s. not (s.name == name)) m v.distinct;
  seats = omega (arith, length-retain-le (λ id (s : Seat). not (s.name == name)) m, v.seats);
  live = AllEntries-retain Live (λ id s. not (s.name == name)) m v.live;
}

act-SeatsOk :
    (action : ModAction) (name : String) (r : Room)
    → SeatsOk r.members
    → SeatsOk (act action name r).members
unfolding act
act-SeatsOk ModAction.mute name r v = v
act-SeatsOk ModAction.unmute name r v = v
act-SeatsOk ModAction.unban name r v = v
act-SeatsOk ModAction.kick name r v = drop_seats-SeatsOk name r.members v
act-SeatsOk ModAction.ban name r v = drop_seats-SeatsOk name r.members v
act-SeatsOk ModAction.release name r v = drop_seats-SeatsOk name r.members v

pub RoomSeats-core :
    (name : String) (r r' : Room) → core r ≡ core r' → RoomSeats name r → RoomSeats name r'
unfolding core
RoomSeats-core name r r' e v = subst SeatsOk (ap (λ (x : Room). x.members) e) v

kept-P {ℓ} :
    (P : String → Room → Type ℓ) (h h' : Hub) (saved : Bool)
    → (if saved then got h else failed) ≡ got h'
    → AllEntries P h.rooms
    → AllEntries P h'.rooms
kept-P P h h' true e all =
    let same : h ≡ h' = cc in subst (λ (x : Hub). AllEntries P x.rooms) same all
kept-P P h h' false e all = cc

prepare-P {ℓ} :
    (P : String → Room → Type ℓ)
    → ((name : String) (r r' : Room) → core r ≡ core r' → P name r → P name r')
    → (action : ModAction) (h h' : Hub) (room name : String) (saved_ban saved_davets : Bool)
    → prepare action h room name saved_ban saved_davets ≡ got h'
    → AllEntries P h.rooms
    → AllEntries P h'.rooms
unfolding prepare
prepare-P P c ModAction.mute h h' room name saved_ban saved_davets e all =
    kept-P P h h' saved_ban e all
prepare-P P c ModAction.unmute h h' room name saved_ban saved_davets e all =
    kept-P P h h' saved_ban e all
prepare-P P c ModAction.unban h h' room name saved_ban saved_davets e all =
    kept-P P h h' saved_ban e all
prepare-P P c ModAction.kick h h' room name saved_ban saved_davets e all =
    revoke_invites_for-P P c h h' room name saved_davets e all
prepare-P P c ModAction.release h h' room name saved_ban saved_davets e all =
    revoke_invites_for-P P c h h' room name saved_davets e all
prepare-P P c ModAction.ban h h' room name true saved_davets e all =
    revoke_invites_for-P P c h h' room name saved_davets e all
prepare-P P c ModAction.ban h h' room name false saved_davets e all = cc

prepare-HubSeats :
    (action : ModAction) (h h' : Hub) (room name : String) (saved_ban saved_davets : Bool)
    → prepare action h room name saved_ban saved_davets ≡ got h'
    → HubSeats h
    → HubSeats h'
prepare-HubSeats action h h' room name saved_ban saved_davets e ok =
    prepare-P RoomSeats RoomSeats-core action h h' room name saved_ban saved_davets e ok

-- Every moderation action, whatever the store answers, keeps every room within its capacity, with
-- one seat for each identity and a live connection in each seat.
moderate-HubSeats :
    (h : Hub) (room name : String) (action : ModAction) (saved_ban saved_davets : Bool)
    → HubSeats h
    → HubSeats (moderate h room action name saved_ban saved_davets).0
unfolding moderate
moderate-HubSeats h room name action saved_ban saved_davets ok =
    elim (Bool-cases (is_deleted h room)) [
      | inl gone ↦ rw gone ok
      | inr here ↦ elim (Answer-cases (prepare action h room name saved_ban saved_davets)) [
        | inl refused ↦ rw (here, refused, moderate) ok
        | inr (h', e) ↦
            let ok' = prepare-HubSeats action h h' room name saved_ban saved_davets e ok in
            rw (here, e, moderate)
              (put_room-HubSeats h' room _ (act-SeatsOk action name _ (room_of-SeatsOk h' room ok'))
                ok')
      ]
    ]
