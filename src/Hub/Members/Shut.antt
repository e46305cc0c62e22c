-- ===== src/Hub/Members/Shut.antt =====
-- A building that has no key and asks for davets: a token opens only the room that it is a davet of,
-- and nothing once its member is gone.
use loca.Base.{
  ◌≡◌, refl, sym, subst, ◌∙◌, ap, inl, inr, String, Bool, true, false, Option, none, some, List, [],
  ◌∷◌, ◌==◌, string_eq, arith, Answer, got, ◌≢◌,
}
use loca.Base.Dict
use loca.Base.Dict.{Dict, AllEntries}
use loca.Protocol.Access.{Invite}
use loca.Hub.State.{Hub}
use loca.Hub.Invites.{remove_tokens, cascade, close_connections, revoke_sessions_for_davet}
use loca.Hub.Invites.Revocation.{Filed}
use loca.Hub.Door.{
  IdentityStore, EnterDecision, enter_decision, credential_authority, principal_at_door,
  member_for_credential,
}
use loca.Hub.Door.Entry.{HoldsKey, LiveDavet, Ranked, Reason}
use loca.Hub.Door.Ruling.{enter_decision-Ruling}
use loca.Hub.Door.Sessions.{revoke_sessions_for_member}
use loca.Hub.Members.{revoke_member, davets_of}
use loca.Hub.Members.Revocation.{revoke_member-Gone, revoke_member_invites}

-- A building of davets, and a token that is neither the admin's nor a credential that the store knows.
pub record Closed (s : IdentityStore) (h : Hub) (t : String) : Type 0 where
  pub no_key : h.room_token ≡ ""
  pub by_davet : h.require_invite ≡ true
  pub not_admin : (t == h.admin_token) ≡ false
  pub persistent : s.is_persistent ≡ true
  pub no_principal : s.principal_for_credential t ≡ none

module _ (s : IdentityStore) (h : Hub) (room t : String) (c : Closed s h t) where
  no_rank : ¬ Ranked s h none none
  no_rank (Ranked.credential a b) = cc
  no_rank (Ranked.admin_session x a b) = cc

  no_HoldsKey : ¬ HoldsKey h (some t)
  no_HoldsKey (HoldsKey.keyless a b) = ground (arith, c.by_davet)
  no_HoldsKey (HoldsKey.building_key a b) =
      ground (arith, c.no_key, string_eq.equals_iff h.room_token "")
  no_HoldsKey (HoldsKey.admin_key a b) =
      ground (arith, c.not_admin, string_eq.equals_iff t h.admin_token)

  no_member : member_for_credential s h (some t) ≡ none
  unfolding member_for_credential
  no_member = ground (arith, c.persistent, c.no_principal)

  Reason-LiveDavet : Reason s h room none (some t) none → LiveDavet s h room t
  unfolding principal_at_door credential_authority
  Reason-LiveDavet (Reason.operator id a b) = ground (arith)
  Reason-LiveDavet (Reason.davet u a live) =
      subst (λ (x : String). LiveDavet s h room x) (ground arith) live
  Reason-LiveDavet (Reason.no_token a k) = cc
  Reason-LiveDavet (Reason.key u a b d k) =
      elim (no_HoldsKey (subst (λ (x : String). HoldsKey h (some x)) (ground arith) k)) [ ]
  Reason-LiveDavet (Reason.membership u m a b d k) = ground (arith, no_member)
  Reason-LiveDavet (Reason.room_session x a l) = cc
  Reason-LiveDavet (Reason.key_session x a l k) = cc

-- In a building of davets, a token that is neither the admin's nor a known credential, without rank
-- and without a session, opens a room only as a live davet of that room.
enter_decision-LiveDavet :
    (s : IdentityStore) (h : Hub) (room t : String) (name_hint : Option String)
    → Closed s h t
    → enter_decision s h room none (some t) none name_hint ≡ EnterDecision.allowed
    → LiveDavet s h room t
enter_decision-LiveDavet s h room t name_hint c e =
    elim ((enter_decision-Ruling s h room none (some t) none name_hint EnterDecision.allowed).0 e) [
      | inl ranked ↦ elim (no_rank s h room t c ranked) [ ]
      | inr (free, reason) ↦ Reason-LiveDavet s h room t c reason
    ]

-- The keys of the building are no part of a revocation.
abbrev keys : Hub → String × String × Bool
keys h = (h.admin_token, h.room_token, h.require_invite)

keys-cascade : (is : List Invite) (h : Hub) → keys (cascade is h) ≡ keys h
unfolding cascade close_connections revoke_sessions_for_davet
keys-cascade [] h = refl
keys-cascade (i ∷ is) h =
    keys-cascade is (close_connections i.room i.name (revoke_sessions_for_davet i.room i.member h))
    ∙ ground arith

keys-revoke_member :
    (h : Hub) (token : String) (saved : Bool) → keys (revoke_member h token saved).0 ≡ keys h
unfolding revoke_member revoke_sessions_for_member
keys-revoke_member h token saved = ground (
  arith,
  keys-cascade (davets_of token h)
      (record h { invites = remove_tokens (davets_of token h) h.invites }),
)

-- Once a membership is ended with the store's consent, no davet that it had opens any room to a caller who shows
-- nothing else: in a building that asks for davets and has no key, whose store is persistent, where every davet is
-- filed under its own token, and where this davet's token is neither the admin's nor a credential that the store
-- knows.
pub revoke_member-denied :
    (s : IdentityStore) (h h' : Hub) (token t room : String) (i : Invite)
    (name_hint : Option String) (saved : Bool)
    → AllEntries Filed h.invites
    → revoke_member h token saved ≡ (h', got true)
    → Dict.lookup t h.invites ≡ some i
    → i.member ≡ token
    → Closed s h t
    → enter_decision s h' room none (some t) none name_hint ≢ EnterDecision.allowed
revoke_member-denied s h h' token t room i name_hint saved filed_all f filed hers c opened =
    let same : keys h' ≡ keys h =
      ap keys (sym (ap (λ (x : Hub × Answer Bool). x.0) f)) ∙ keys-revoke_member h token saved in
    let c' : Closed s h' t = record {
      no_key = ground (arith, c.no_key);
      by_davet = ground (arith, c.by_davet);
      not_admin = ground (arith, c.not_admin);
      persistent = c.persistent;
      no_principal = c.no_principal;
    } in
    let live = enter_decision-LiveDavet s h' room t name_hint c' opened in
    let left = (revoke_member-Gone h h' token saved filed_all f).no_davet t live.davet live.filed in
    ground (
      arith,
      revoke_member_invites h h' token saved t live.davet f live.filed,
      string_eq.equals_iff live.davet.member token,
    )
