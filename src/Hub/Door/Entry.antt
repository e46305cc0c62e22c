-- ===== src/Hub/Door/Entry.antt =====
-- Who comes into a room, as a relation that lists the reasons, and `enter_decision` against it.
use loca.Base.{
  ◌≡◌, refl, ◌⊎◌, inl, inr, String, Bool, true, false, not, ◌&&◌, ◌||◌, Option, none, some, ◌==◌,
  string_eq, option_eq, option_beq_iff, is_some, arith, Bool-cases, Option-cases,
}
use loca.Base.Dict
use loca.Base.Dict.{Dict}
use loca.Protocol.Access.{Invite, Membership}
use loca.Hub.State.{Hub, SessionIdentity}
use loca.Hub.Invites.{invite_by_token, invite_for}
use loca.Hub.Door.{
  IdentityStore, is_building_admin, credential_authority, session_is_admin, is_operator_at_door,
  principal_at_door, may_enter, session_opens, is_member, member_for_credential,
}

-- The building lets a token in: it has no key and asks for no davet, or the token is its key, or the
-- admin's.
pub data HoldsKey (h : Hub) (token : Option String) : Type 0 where
  keyless : h.room_token ≡ "" → h.require_invite ≡ false → HoldsKey h token
  building_key : (h.room_token == "") ≡ false → token ≡ some h.room_token → HoldsKey h token
  admin_key : (h.admin_token == "") ≡ false → token ≡ some h.admin_token → HoldsKey h token

-- The token is a davet of the room whose member, if it has one, is not suspended.
pub record LiveDavet (s : IdentityStore) (h : Hub) (room token : String) : Type 0 where
  pub davet : Invite
  pub filed : Dict.lookup token h.invites ≡ some davet
  pub here : davet.room ≡ room
  pub active : (davet.member ≡ "") ⊎ (s.member_suspended davet.member ≡ false)

-- Building rank, which no ban holds back.
pub data Ranked (s : IdentityStore) (h : Hub) (admin_tok : Option String)
    (session : Option SessionIdentity) : Type 0 where
  credential :
      is_some admin_tok ≡ true
      → is_building_admin (credential_authority s h admin_tok) ≡ true
      → Ranked s h admin_tok session
  admin_session :
      (x : SessionIdentity) → session ≡ some x → x.admin ≡ true → Ranked s h admin_tok session

-- What opens a room to those without rank.
pub data Reason (s : IdentityStore) (h : Hub) (room : String) (admin_tok davet_tok : Option String)
    (session : Option SessionIdentity) : Type 0 where
  operator :
      (id : String)
      → principal_at_door session (credential_authority s h admin_tok) ≡ some id
      → s.loca_operator room ≡ some id
      → Reason s h room admin_tok davet_tok session
  davet :
      (t : String)
      → davet_tok ≡ some t
      → LiveDavet s h room t
      → Reason s h room admin_tok davet_tok session
  no_token : davet_tok ≡ none → HoldsKey h none → Reason s h room admin_tok davet_tok session
  key :
      (t : String)
      → davet_tok ≡ some t
      → s.credential_is_revoked t ≡ false
      → member_for_credential s h (some t) ≡ none
      → HoldsKey h (some t)
      → Reason s h room admin_tok davet_tok session
  membership :
      (t : String) (m : Membership)
      → davet_tok ≡ some t
      → s.credential_is_revoked t ≡ false
      → member_for_credential s h (some t) ≡ some m
      → HoldsKey h (some m.token)
      → Reason s h room admin_tok davet_tok session
  room_session :
      (x : SessionIdentity)
      → session ≡ some x
      → x.loca ≡ some room
      → Reason s h room admin_tok davet_tok session
  key_session :
      (x : SessionIdentity)
      → session ≡ some x
      → x.loca ≡ none
      → (h.room_token == "") ≡ false
      → Reason s h room admin_tok davet_tok session

is_member-HoldsKey : (h : Hub) (token : Option String) → is_member h token ≡ true → HoldsKey h token
unfolding is_member
is_member-HoldsKey h token e =
    elim (Bool-cases (not (h.admin_token == "") && token == some h.admin_token)) [
      | inl admin ↦
          HoldsKey.admin_key (ground arith)
            (ground (arith, option_beq_iff token (some h.admin_token)))
      | inr not_admin ↦ elim (Bool-cases (h.room_token == "")) [
        | inl free ↦ HoldsKey.keyless ((string_eq.equals_iff h.room_token "").0 free) (ground arith)
        | inr keyed ↦
            HoldsKey.building_key keyed (ground (arith, option_beq_iff token (some h.room_token)))
      ]
    ]

HoldsKey-is_member : (h : Hub) (token : Option String) → HoldsKey h token → is_member h token ≡ true
unfolding is_member
HoldsKey-is_member h token (HoldsKey.keyless a b) =
    ground (arith, string_eq.equals_iff h.room_token "")
HoldsKey-is_member h token (HoldsKey.building_key a b) =
    ground (arith, option_beq_iff token (some h.room_token))
HoldsKey-is_member h token (HoldsKey.admin_key a b) =
    ground (arith, option_beq_iff token (some h.admin_token))

invite_for-LiveDavet :
    (s : IdentityStore) (h : Hub) (room t : String)
    → is_some (invite_for s.member_suspended h room (some t)) ≡ true
    → LiveDavet s h room t
unfolding invite_for invite_by_token
invite_for-LiveDavet s h room t e = elim (Option-cases (Dict.lookup t h.invites)) [
  | inl absent ↦ ground arith
  | inr (i, filed) ↦ elim (Bool-cases (not (i.member == "") && s.member_suspended i.member)) [
    | inl suspended ↦ ground arith
    | inr active ↦ record {
      davet = i;
      filed = filed;
      here = ground (arith, string_eq.equals_iff i.room room);
      active = elim (Bool-cases (i.member == "")) [
        | inl unowned ↦ inl ((string_eq.equals_iff i.member "").0 unowned)
        | inr owned ↦ inr (ground arith)
      ];
    }
  ]
]

LiveDavet-invite_for :
    (s : IdentityStore) (h : Hub) (room t : String)
    → LiveDavet s h room t
    → is_some (invite_for s.member_suspended h room (some t)) ≡ true
unfolding invite_for invite_by_token
LiveDavet-invite_for s h room t live = elim live.active [
  | inl unowned ↦ ground (
    arith,
    live.filed,
    live.here,
    string_eq.equals_iff live.davet.room room,
    string_eq.equals_iff live.davet.member "",
  )
  | inr fit ↦ ground (arith, live.filed, live.here, string_eq.equals_iff live.davet.room room)
]

module _ (s : IdentityStore) (h : Hub) (room : String) (admin_tok : Option String)
    (session : Option SessionIdentity) where
  may_enter-Reason :
      (davet_tok : Option String)
      → may_enter s h room davet_tok ≡ true
      → Reason s h room admin_tok davet_tok session
  unfolding may_enter
  may_enter-Reason none e =
      Reason.no_token refl (is_member-HoldsKey h none (ground (arith, invite_for)))
  may_enter-Reason (some t) e =
      elim (Bool-cases (is_some (invite_for s.member_suspended h room (some t)))) [
        | inl invited ↦ Reason.davet t refl (invite_for-LiveDavet s h room t invited)
        | inr uninvited ↦ elim (Option-cases (member_for_credential s h (some t))) [
          | inl unknown ↦
              Reason.key t refl (ground arith) unknown
                (is_member-HoldsKey h (some t) (ground arith))
          | inr (m, known) ↦
              Reason.membership t m refl (ground arith) known
                (is_member-HoldsKey h (some m.token) (ground arith))
        ]
      ]

  session_opens-Reason :
      (davet_tok : Option String) (x : SessionIdentity)
      → session ≡ some x
      → session_opens h room (some x) ≡ true
      → Reason s h room admin_tok davet_tok session
  unfolding session_opens
  session_opens-Reason davet_tok x is e = elim (Option-cases x.loca) [
    | inl building ↦ Reason.key_session x is building (ground arith)
    | inr (l, scoped) ↦ Reason.room_session x is (ground (arith, string_eq.equals_iff l room))
  ]

  -- The tests behind the door, in the order of `enter_decision`.
  abbrev pub is_ranked : Bool
  is_ranked =
      (is_building_admin (credential_authority s h admin_tok) && is_some admin_tok)
      || session_is_admin session

  pub is_ranked-Ranked : is_ranked ≡ true → Ranked s h admin_tok session
  unfolding session_is_admin
  is_ranked-Ranked e =
      elim (Bool-cases
        (is_building_admin (credential_authority s h admin_tok) && is_some admin_tok)) [
          | inl rank ↦ Ranked.credential (ground arith) (ground arith)
          | inr plain ↦ elim (Option-cases session) [
            | inl nothing ↦ ground arith
            | inr (x, is) ↦ Ranked.admin_session x is (ground (arith, is))
          ]
        ]

  pub Ranked-is_ranked : Ranked s h admin_tok session → is_ranked ≡ true
  unfolding session_is_admin
  Ranked-is_ranked (Ranked.credential a b) = ground arith
  Ranked-is_ranked (Ranked.admin_session x is a) = ground (arith, is)

  module _ (davet_tok : Option String) where
    abbrev pub has_reason : Bool
    has_reason =
        is_operator_at_door s room (principal_at_door session (credential_authority s h admin_tok))
        || may_enter s h room davet_tok
        || session_opens h room session

    pub has_reason-Reason : has_reason ≡ true → Reason s h room admin_tok davet_tok session
    unfolding is_operator_at_door session_opens
    has_reason-Reason e = elim (Bool-cases (may_enter s h room davet_tok)) [
      | inl enters ↦ may_enter-Reason davet_tok enters
      | inr shut ↦ elim (Bool-cases (session_opens h room session)) [
        | inl opened ↦ elim (Option-cases session) [
          | inl nothing ↦ ground arith
          | inr (x, is) ↦ session_opens-Reason davet_tok x is (ground (arith, is))
        ]
        | inr closed ↦
            elim (Option-cases (principal_at_door session (credential_authority s h admin_tok))) [
              | inl nobody ↦ ground arith
              | inr (id, is) ↦
                  Reason.operator id is
                    (ground (arith, is, option_beq_iff (s.loca_operator room) (some id)))
            ]
      ]
    ]

    pub Reason-has_reason : Reason s h room admin_tok davet_tok session → has_reason ≡ true
    unfolding is_operator_at_door session_opens may_enter invite_for
    Reason-has_reason (Reason.operator id a b) =
        ground (arith, option_beq_iff (s.loca_operator room) (some id))
    Reason-has_reason (Reason.davet t a live) = ground (arith, LiveDavet-invite_for s h room t live)
    Reason-has_reason (Reason.no_token a k) = ground (arith, HoldsKey-is_member h none k)
    Reason-has_reason (Reason.key t a u m k) = ground (arith, HoldsKey-is_member h (some t) k)
    Reason-has_reason (Reason.membership t m a u f k) =
        ground (arith, HoldsKey-is_member h (some m.token) k)
    Reason-has_reason (Reason.room_session x a l) = ground (arith, string_eq.equals_iff room room)
    Reason-has_reason (Reason.key_session x a l k) = ground arith
