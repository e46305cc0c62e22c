-- ===== src/Hub/Members.antt =====
-- Memberships of the building, second masters and the lobby (crates/server/src/hub.rs). `saved` says
-- whether the store accepted the change; `now` is the clock's reading.
pub mod Revocation
pub mod Shut
use loca.Base.{
  ℕ, ◌+◌, ◌-◌, String, Bool, true, false, not, ◌||◌, Option, none, some, List, [], ◌∷◌, ◌==◌,
  string_eq, nat_eq, if◌then◌else◌, unwrap_or, ltb, find, retain, sort_by, str_le, Answer, failed,
  got,
}
use loca.Base.Dict
use loca.Base.Dict.{Dict}
use loca.Protocol.Access.{Invite, Membership}
use loca.Hub.State.{Hub, LobbyEvent}
use loca.Hub.Invites.{remove_tokens, cascade, close_connections}
use loca.Hub.Door.Sessions.{revoke_sessions_for_member}

unfoldable pub member_by_name : Hub → String → Option Membership
member_by_name h name = find (λ (m : Membership). m.name == name) (Dict.values h.members)

-- `token` is the new membership's token, drawn at random. Admitting a known name finds them.
unfoldable pub admit_member :
    Hub → String → String → String → String → ℕ → Bool → Hub × Answer Membership
unfolding member_by_name
admit_member h name kind by token now saved = elim (member_by_name h name) [
  | some existing ↦ (h, got existing)
  | none ↦
      let m : Membership = record {
        token = token;
        name = name;
        kind = kind;
        joined_at = now;
        admitted_by = by;
      } in
      if saved then (record h { members = Dict.insert token m h.members }, got m) else (h, failed)
]

-- The davets of a member, in every room.
unfoldable pub owned_by : String → List Invite → List Invite
owned_by member [] = []
owned_by member (i ∷ is) =
    let rest = owned_by member is in if i.member == member then i ∷ rest else rest

unfoldable pub davets_of : String → Hub → List Invite
unfolding owned_by
davets_of member h = owned_by member (Dict.values h.invites)

-- A membership ends with everything that it authorised: davets, sessions, connections.
unfoldable pub revoke_member : Hub → String → Bool → Hub × Answer Bool
unfolding davets_of cascade remove_tokens revoke_sessions_for_member
revoke_member h token saved =
    let davets = davets_of token h in
    let h₁ = cascade davets (record h { invites = remove_tokens davets h.invites }) in
    let h₂ = revoke_sessions_for_member token h₁ in
    if not (Dict.contains_key token h.members)
    then (h, got false)
    else if saved
    then (
      record h₂ {
        members = Dict.remove token h₂.members;
        lobby_sent = LobbyEvent.membership_revoked token ∷ h₂.lobby_sent;
      },
      got true,
    )
    else (h, failed)

-- Every connection that one of the davets opened is closed.
unfoldable pub close_all : List Invite → Hub → Hub
unfolding close_connections
close_all [] h = h
close_all (i ∷ is) h = close_all is (close_connections i.room i.name h)

-- The member's reference is a hash of the token: `reference` computes it. The store's answer is that
-- it changed something, that it did not, or that it failed.
unfoldable pub set_member_suspended :
    (String → String) → Hub → String → Bool → Answer Bool → Hub × Answer Bool
unfolding davets_of close_all remove_tokens revoke_sessions_for_member
set_member_suspended management_id h reference suspended stored =
    elim (find (λ token. management_id token == reference) (Dict.keys h.members)) [
      | none ↦ (h, got false)
      | some token ↦
          let davets = davets_of token h in
          let h₁ = close_all davets (record h { invites = remove_tokens davets h.invites }) in
          let h₂ = revoke_sessions_for_member token h₁ in
          if not suspended then (h, stored) else elim stored [
            | failed ↦ (h, failed)
            | got changed ↦
                if changed
                then (
                  record h₂ { lobby_sent = LobbyEvent.membership_suspended token ∷ h₂.lobby_sent },
                  got true,
                )
                else (h, got false)
          ]
    ]

unfoldable pub revoke_member_ref : (String → String) → Hub → String → Bool → Hub × Answer Bool
unfolding revoke_member
revoke_member_ref management_id h reference saved =
    elim (find (λ token. token == reference || management_id token == reference)
      (Dict.keys h.members)) [ some token ↦ revoke_member h token saved | none ↦ (h, got false) ]

unfoldable pub add_smaster : Hub → String → String → Bool → Hub × Answer String
add_smaster h name token saved =
    if saved
    then (record h { smasters = Dict.insert token name h.smasters }, got token)
    else (h, failed)

unfoldable pub revoke_smaster : Hub → String → Bool → Hub × Answer Bool
revoke_smaster h token saved =
    if not (Dict.contains_key token h.smasters)
    then (h, got false)
    else if saved
    then (record h { smasters = Dict.remove token h.smasters }, got true)
    else (h, failed)

unfoldable pub revoke_smaster_ref : (String → String) → Hub → String → Bool → Hub × Answer Bool
unfolding revoke_smaster
revoke_smaster_ref management_id h reference saved =
    elim (find (λ token. token == reference || management_id token == reference)
      (Dict.keys h.smasters)) [ some token ↦ revoke_smaster h token saved | none ↦ (h, got false) ]

-- The lobby counts the connections of each member.
unfoldable pub lobby_join : Hub → String → Hub
lobby_join h member = record h {
  lobby_online =
      Dict.insert member (unwrap_or 0 (Dict.lookup member h.lobby_online) + 1) h.lobby_online;
}

unfoldable pub lobby_leave : Hub → String → Hub
lobby_leave h member = elim (Dict.lookup member h.lobby_online) [
  | none ↦ h
  | some count ↦
      if count - 1 == 0
      then record h { lobby_online = Dict.remove member h.lobby_online }
      else record h { lobby_online = Dict.insert member (count - 1) h.lobby_online }
]

unfoldable pub lobby_is_online : Hub → String → Bool
lobby_is_online h member = ltb 0 (unwrap_or 0 (Dict.lookup member h.lobby_online))

unfoldable pub caretaker_names : Hub → List String
caretaker_names h = sort_by str_le h.caretakers
