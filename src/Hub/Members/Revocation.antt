-- ===== src/Hub/Members/Revocation.antt =====
-- Ending a membership: nothing of what it authorised is left.
use loca.Base.{
  ◌≡◌, sym, subst, ◌∙◌, ap, inl, inr, String, Bool, true, false, not, none, some, [], ◌∷◌, ◌==◌,
  string_eq, option_eq, arith, got, Bool-cases, any,
}
use loca.Base.Dict
use loca.Base.Dict.{Dict, AllEntries}
use loca.Base.Dict.Laws.{lookup-remove, lookup-retain}
use loca.Protocol.Access.{Invite}
use loca.Hub.State.{Hub, SessionIdentity, LobbyEvent}
use loca.Hub.Invites.{remove_tokens, cascade}
use loca.Hub.Invites.Revocation.{Filed, in_tokens, lookup-remove_tokens, cascade_invites}
use loca.Hub.Door.Sessions.{revoke_sessions_for_member}
use loca.Hub.Members.{owned_by, davets_of, revoke_member}

in_davets_of :
    (token t : String) (i : Invite) (m : Dict String Invite)
    → AllEntries Filed m
    → Dict.lookup t m ≡ some i
    → i.member ≡ token
    → in_tokens t (owned_by token (Dict.values m)) ≡ true
unfolding in_tokens any Dict.lookup owned_by
in_davets_of token t i [] f e n = cc
in_davets_of token t i ((k, j) ∷ m) f e n = ground (
  arith,
  in_davets_of token t i m f.1,
  string_eq.equals_iff k t,
  string_eq.equals_iff j.token t,
  string_eq.equals_iff j.member token,
  f.0,
)

-- What a member's token authorised: itself, davets, and sessions.
pub record Gone (token : String) (h : Hub) : Type 0 where
  pub no_membership : Dict.lookup token h.members ≡ none
  pub no_davet :
      (t : String) (i : Invite) → Dict.lookup t h.invites ≡ some i → (i.member == token) ≡ false
  pub no_session :
      (t : String) (x : SessionIdentity)
      → Dict.lookup t h.sessions ≡ some x
      → (x.member == some token) ≡ false

remove_davets :
    (token t : String) (i : Invite) (m : Dict String Invite)
    → AllEntries Filed m
    → Dict.lookup t (remove_tokens (owned_by token (Dict.values m)) m) ≡ some i
    → (i.member == token) ≡ false
remove_davets token t i m f e = elim (Bool-cases (i.member == token)) [
  | inr other ↦ other
  | inl hers ↦
      let is = owned_by token (Dict.values m) in
      ground (
        arith,
        lookup-remove_tokens t is m,
        in_davets_of token t i m f,
        string_eq.equals_iff i.member token,
      )
]

-- The hub that a revocation leaves, when the store agrees.
abbrev after : Hub → String → Hub
after h token = revoke_sessions_for_member token (
    cascade (davets_of token h)
      (record h { invites = remove_tokens (davets_of token h) h.invites }))

after-Gone :
    (h : Hub) (token : String)
    → AllEntries Filed h.invites
    → Gone token (record (after h token) { members = Dict.remove token (after h token).members })
unfolding revoke_sessions_for_member davets_of
after-Gone h token f =
    let h₀ = record h { invites = remove_tokens (davets_of token h) h.invites } in
    let h₁ = cascade (davets_of token h) h₀ in
    record {
      no_membership =
          ground (arith, lookup-remove token token h₁.members, string_eq.equals_iff token token);
      no_davet = λ t i e.
          remove_davets token t i h.invites f
            (sym (ap (λ m. Dict.lookup t m) (cascade_invites (davets_of token h) h₀)) ∙ e);
      no_session = λ t x e.
          let kept =
            lookup-retain (λ t (y : SessionIdentity). not (y.member == some token)) t x h₁.sessions
              e in
          ground (arith);
    }

-- The hub once the membership is out too, and the lobby is told.
abbrev ended : Hub → String → Hub
ended h token = record (after h token) {
  members = Dict.remove token (after h token).members;
  lobby_sent = LobbyEvent.membership_revoked token ∷ (after h token).lobby_sent;
}

revoke_member_lem :
    (h h' : Hub) (token : String) (saved : Bool)
    → revoke_member h token saved ≡ (h', got true)
    → ended h token ≡ h'
unfolding revoke_member
revoke_member_lem h h' token false e = ground arith
revoke_member_lem h h' token true e = elim (Bool-cases (Dict.contains_key token h.members)) [
  | inl known ↦ ground arith
  | inr unknown ↦ ground arith
]

-- A membership that is ended leaves no membership, no davet and no session of the member, when every
-- davet is filed under its token.
pub revoke_member-Gone :
    (h h' : Hub) (token : String) (saved : Bool)
    → AllEntries Filed h.invites
    → revoke_member h token saved ≡ (h', got true)
    → Gone token h'
revoke_member-Gone h h' token saved f e =
    let g = after-Gone h token f in
    subst (λ x. Gone token x) (revoke_member_lem h h' token saved e)
      (record { no_membership = g.no_membership; no_davet = g.no_davet; no_session = g.no_session })

-- The davets that are left were there before.
pub revoke_member_invites :
    (h h' : Hub) (token : String) (saved : Bool) (t : String) (i : Invite)
    → revoke_member h token saved ≡ (h', got true)
    → Dict.lookup t h'.invites ≡ some i
    → Dict.lookup t h.invites ≡ some i
unfolding revoke_sessions_for_member
revoke_member_invites h h' token saved t i e filed =
    let is = davets_of token h in
    let kept : h'.invites ≡ remove_tokens is h.invites =
      sym (ap (λ (x : Hub). x.invites) (revoke_member_lem h h' token saved e))
      ∙ cascade_invites is (record h { invites = remove_tokens is h.invites }) in
    ground (arith, lookup-remove_tokens t is h.invites)
