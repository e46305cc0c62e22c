-- ===== src/Hub/Door/Ruling.antt =====
-- `enter_decision` against the reasons to come in.
use loca.Base.{
  ◌≡◌, refl, subst, ◌↔◌, ◌⊎◌, inl, inr, String, Bool, true, ◌&&◌, ◌||◌, Option, some, string_eq,
  option_eq, if◌then◌else◌, is_some, arith, Bool-cases, Option-cases,
}
use loca.Hub.State.{Hub, SessionIdentity, is_banned}
use loca.Hub.Door.{
  IdentityStore, EnterDecision, enter_decision, is_building_admin, credential_authority,
  session_is_admin, is_banned_at_door, ban_name, is_operator_at_door, principal_at_door, may_enter,
  session_opens,
}
use loca.Hub.Door.Entry.{
  Ranked, Reason, is_ranked, is_ranked-Ranked, Ranked-is_ranked, has_reason, has_reason-Reason,
  Reason-has_reason,
}

-- The name that the caller goes by is banned in the room.
pub record Barred (s : IdentityStore) (h : Hub) (room : String)
    (admin_tok davet_tok : Option String) (session : Option SessionIdentity)
    (name_hint : Option String) : Type 0 where
  pub name : String
  pub goes_by : ban_name s h admin_tok davet_tok session name_hint ≡ some name
  pub listed : is_banned h room name ≡ true

in_order :
    (rank admin barred runs enters opens : Bool)
    → (if rank
        then EnterDecision.allowed
        else if admin
        then EnterDecision.allowed
        else if barred
        then EnterDecision.banned
        else if runs
        then EnterDecision.allowed
        else if enters
        then EnterDecision.allowed
        else if opens
        then EnterDecision.allowed
        else EnterDecision.denied)
      ≡ (if rank || admin
          then EnterDecision.allowed
          else if barred
          then EnterDecision.banned
          else if runs || enters || opens
          then EnterDecision.allowed
          else EnterDecision.denied)
in_order rank admin barred runs enters opens = ground arith

module _ (s : IdentityStore) (h : Hub) (room : String) (admin_tok davet_tok : Option String)
    (session : Option SessionIdentity) (name_hint : Option String) where
  -- What each answer at the door says of the caller.
  abbrev pub Ruling : EnterDecision → Type 0
  Ruling EnterDecision.allowed =
      Ranked s h admin_tok session
      ⊎ ((¬ Barred s h room admin_tok davet_tok session name_hint)
          × Reason s h room admin_tok davet_tok session)
  Ruling EnterDecision.banned =
      (¬ Ranked s h admin_tok session) × Barred s h room admin_tok davet_tok session name_hint
  Ruling EnterDecision.denied =
      (¬ Ranked s h admin_tok session)
      × (¬ Barred s h room admin_tok davet_tok session name_hint)
      × (¬ Reason s h room admin_tok davet_tok session)

  abbrev is_barred : Bool
  is_barred = is_banned_at_door h room (ban_name s h admin_tok davet_tok session name_hint)

  is_barred-Barred : is_barred ≡ true → Barred s h room admin_tok davet_tok session name_hint
  unfolding is_banned_at_door
  is_barred-Barred e = elim (Option-cases (ban_name s h admin_tok davet_tok session name_hint)) [
    | inl nameless ↦ ground arith
    | inr (name, goes_by) ↦ record {
      name = name;
      goes_by = goes_by;
      listed = ground (arith, goes_by);
    }
  ]

  Barred-is_barred : Barred s h room admin_tok davet_tok session name_hint → is_barred ≡ true
  unfolding is_banned_at_door
  Barred-is_barred b = ground (arith, b.goes_by, b.listed)

  enter_decision_lem : enter_decision s h room admin_tok davet_tok session name_hint ≡ (
      if is_ranked s h room admin_tok session
      then EnterDecision.allowed
      else if is_barred
      then EnterDecision.banned
      else if has_reason s h room admin_tok session davet_tok
      then EnterDecision.allowed
      else EnterDecision.denied)
  unfolding enter_decision
  enter_decision_lem =
      in_order (is_building_admin (credential_authority s h admin_tok) && is_some admin_tok)
        (session_is_admin session) is_barred
        (is_operator_at_door s room
          (principal_at_door session (credential_authority s h admin_tok)))
        (may_enter s h room davet_tok) (session_opens h room session)

  decision-Ruling : Ruling (enter_decision s h room admin_tok davet_tok session name_hint)
  decision-Ruling =
      rw enter_decision_lem (elim (Bool-cases (is_ranked s h room admin_tok session)) [
        | inl ranked ↦ rw ranked (inl (is_ranked-Ranked s h room admin_tok session ranked))
        | inr plain ↦ elim (Bool-cases is_barred) [
          | inl barred ↦
              rw (plain, barred)
                (
                  (λ r. ground (arith, Ranked-is_ranked s h room admin_tok session r)),
                  is_barred-Barred barred,
                )
          | inr free ↦ elim (Bool-cases (has_reason s h room admin_tok session davet_tok)) [
            | inl found ↦
                rw (plain, free, found)
                  (inr (
                    (λ b. ground (arith, Barred-is_barred b)),
                    has_reason-Reason s h room admin_tok session davet_tok found,
                  ))
            | inr nothing ↦
                rw (plain, free, nothing)
                  (
                    (λ r. ground (arith, Ranked-is_ranked s h room admin_tok session r)),
                    (λ b. ground (arith, Barred-is_barred b)),
                    λ r. ground (arith, Reason-has_reason s h room admin_tok session davet_tok r),
                  )
          ]
        ]
      ])

  Ruling-alike : (d d' : EnterDecision) → Ruling d → Ruling d' → d ≡ d'
  Ruling-alike EnterDecision.allowed EnterDecision.allowed x y = refl
  Ruling-alike EnterDecision.banned EnterDecision.banned x y = refl
  Ruling-alike EnterDecision.denied EnterDecision.denied x y = refl
  Ruling-alike EnterDecision.allowed EnterDecision.banned (inl r) y = elim (y.0 r) [ ]
  Ruling-alike EnterDecision.allowed EnterDecision.banned (inr x) y = elim (x.0 y.1) [ ]
  Ruling-alike EnterDecision.allowed EnterDecision.denied (inl r) y = elim (y.0 r) [ ]
  Ruling-alike EnterDecision.allowed EnterDecision.denied (inr x) y = elim (y.2 x.1) [ ]
  Ruling-alike EnterDecision.banned EnterDecision.allowed x (inl r) = elim (x.0 r) [ ]
  Ruling-alike EnterDecision.banned EnterDecision.allowed x (inr y) = elim (y.0 x.1) [ ]
  Ruling-alike EnterDecision.denied EnterDecision.allowed x (inl r) = elim (x.0 r) [ ]
  Ruling-alike EnterDecision.denied EnterDecision.allowed x (inr y) = elim (x.2 y.1) [ ]
  Ruling-alike EnterDecision.banned EnterDecision.denied x y = elim (y.1 x.1) [ ]
  Ruling-alike EnterDecision.denied EnterDecision.banned x y = elim (x.1 y.1) [ ]

  -- The door gives an answer exactly when the caller is as that answer says: rank lets anyone in, a
  -- ban holds back whoever has no rank, and otherwise it takes one of the reasons.
  pub enter_decision-Ruling :
      (d : EnterDecision)
      → (enter_decision s h room admin_tok davet_tok session name_hint ≡ d) ↔ Ruling d
  enter_decision-Ruling d = (
    (λ e. subst Ruling e decision-Ruling),
    λ r.
        Ruling-alike (enter_decision s h room admin_tok davet_tok session name_hint) d
          decision-Ruling r,
  )
