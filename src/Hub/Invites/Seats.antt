-- ===== src/Hub/Invites/Seats.antt =====
-- A room never has more davets than seats, nor two for one member.
use loca.Base.{
  ℕ, suc, ◌≤◌, ◌<◌, ◌≡◌, refl, String, Bool, false, not, ◌&&◌, some, List, [], ◌∷◌, ◌==◌, string_eq,
  if◌then◌else◌, leb, arith, any, Bool-cases, Option-cases, inl, inr, ◌⊎◌, contains,
}
use loca.Base.Dict
use loca.Base.Dict.{Dict}
use loca.Protocol.Access.{Invite, Membership}
use loca.Hub.State.{Hub, is_deleted, room_exists}
use loca.Hub.Seats.{capacity}
use loca.Hub.Invites.{
  count_for, has_active_invite, add_invite, new_invite, issue, invite_member_to_room, member_of,
  admin_open,
}

-- How many live davets a member has for a room.
unfoldable pub held_by : String → String → List Invite → ℕ
held_by room member [] = 0
held_by room member (i ∷ is) =
    let rest = held_by room member is in
    if i.room == room && i.member == member then suc rest else rest

pub record DavetsOk (invites : Dict String Invite) : Type 0 where
  pub seats : (room : String) → count_for room (Dict.values invites) ≤ capacity
  pub single : (room member : String) → held_by room member (Dict.values invites) ≤ 1

count_for-insert :
    (room token : String) (i : Invite) (m : Dict String Invite)
    → count_for room (Dict.values (Dict.insert token i m)) ≤ (
        if i.room == room
        then suc (count_for room (Dict.values m))
        else count_for room (Dict.values m))
unfolding count_for Dict.insert
count_for-insert room token i [] = ground arith
count_for-insert room token i ((k, j) ∷ m) = ground (arith, count_for-insert room token i m)

held_by-insert :
    (room member token : String) (i : Invite) (m : Dict String Invite)
    → held_by room member (Dict.values (Dict.insert token i m)) ≤ (
        if i.room == room && i.member == member
        then suc (held_by room member (Dict.values m))
        else held_by room member (Dict.values m))
unfolding held_by Dict.insert
held_by-insert room member token i [] = ground arith
held_by-insert room member token i ((k, j) ∷ m) =
    ground (arith, held_by-insert room member token i m)

not_held :
    (room member : String) (is : List Invite)
    → any (λ i. i.room == room && i.member == member) is ≡ false
    → held_by room member is ≡ 0
unfolding held_by any
not_held room member [] h = refl
not_held room member (i ∷ is) h = ground (arith, not_held room member is)

-- A new davet of a room with a seat left, for a member without one.
insert-DavetsOk :
    (i : Invite) (token : String) (m : Dict String Invite)
    → count_for i.room (Dict.values m) < capacity
    → held_by i.room i.member (Dict.values m) ≡ 0
    → DavetsOk m
    → DavetsOk (Dict.insert token i m)
insert-DavetsOk i token m left none_held v = record {
  seats = λ room.
      ground
        (arith, count_for-insert room token i m, v.seats room, string_eq.equals_iff i.room room);
  single = λ room member. ground (
    arith,
    held_by-insert room member token i m,
    v.single room member,
    string_eq.equals_iff i.room room,
    string_eq.equals_iff i.member member,
  );
}

-- Issuing changes the davets by an insertion or not at all.
issue_invites :
    (suspended : String → Bool) (h : Hub) (i : Invite) (saved : Bool)
    → ((issue suspended h i saved).0.invites ≡ Dict.insert i.token i h.invites)
      ⊎ ((issue suspended h i saved).0.invites ≡ h.invites)
unfolding issue add_invite
issue_invites suspended h i saved = ground arith

issue-DavetsOk :
    (suspended : String → Bool) (h : Hub) (i : Invite) (saved : Bool)
    → count_for i.room (Dict.values h.invites) < capacity
    → held_by i.room i.member (Dict.values h.invites) ≡ 0
    → DavetsOk h.invites
    → DavetsOk (issue suspended h i saved).0.invites
issue-DavetsOk suspended h i saved left none_held v = elim (issue_invites suspended h i saved) [
  | inl e ↦ rw e (insert-DavetsOk i i.token h.invites left none_held v)
  | inr e ↦ rw e v
]

-- The room has a seat left and the member none, where the invitation gets past its checks.
invite_steps :
    (suspended : String → Bool) (h : Hub) (member room issued_by token : String) (now : ℕ)
    (saved : Bool) (m : Membership)
    → is_deleted h room ≡ false
    → (not (admin_open h) && not (room_exists h room)) ≡ false
    → member_of suspended h member ≡ some m
    → m.token ≡ member
    → DavetsOk h.invites
    → DavetsOk (invite_member_to_room suspended h member room issued_by token now saved).0.invites
unfolding invite_member_to_room new_invite has_active_invite
invite_steps suspended h member room issued_by token now saved m here there known own v =
    elim (Bool-cases (room == h.reserved_room && not (contains m.name h.caretakers))) [
      | inl shut ↦ rw (here, there, known, shut, invite_member_to_room) v
      | inr free ↦ elim (Bool-cases (has_active_invite h room member)) [
        | inl again ↦ rw (here, there, known, free, again, invite_member_to_room) v
        | inr first ↦ elim (Bool-cases (leb capacity (count_for room (Dict.values h.invites)))) [
          | inl full ↦ rw (here, there, known, free, first, full, invite_member_to_room) v
          | inr left ↦
              rw (here, there, known, free, first, left, invite_member_to_room)
                (issue-DavetsOk suspended h (new_invite m room token issued_by now) saved
                  (ground arith) (rw own (not_held room member (Dict.values h.invites) first)) v)
        ]
      ]
    ]

-- If the davets of every room are within its seats, with none given to a member twice, then so they are after an
-- invitation, on every branch, where the membership found under the given token carries that token.
pub invite-DavetsOk :
    (suspended : String → Bool) (h : Hub) (member room issued_by token : String) (now : ℕ)
    (saved : Bool)
    → ((m : Membership) → member_of suspended h member ≡ some m → m.token ≡ member)
    → DavetsOk h.invites
    → DavetsOk (invite_member_to_room suspended h member room issued_by token now saved).0.invites
unfolding invite_member_to_room
invite-DavetsOk suspended h member room issued_by token now saved own v =
    elim (Bool-cases (is_deleted h room)) [
      | inl gone ↦ rw gone v
      | inr here ↦ elim (Bool-cases (not (admin_open h) && not (room_exists h room))) [
        | inl missing ↦ rw (here, missing) v
        | inr there ↦ elim (Option-cases (member_of suspended h member)) [
          | inl unknown ↦ rw (here, there, unknown, invite_member_to_room) v
          | inr (m, known) ↦
              invite_steps suspended h member room issued_by token now saved m here there known
                (own m known) v
        ]
      ]
    ]
