-- ===== src/Hub/Invites/Revocation.antt =====
-- Ending the davets of a name: none is left, and nothing else of the hub changes but sessions and
-- frames.
use loca.Base.{
  ◌≡◌, refl, subst, ◌∙◌, String, Bool, true, false, none, some, List, [], ◌∷◌, ◌==◌, string_eq,
  if◌then◌else◌, arith, got, Bool-cases, Option-cases, inl, inr, any,
}
use loca.Base.Dict
use loca.Base.Dict.{Dict, AllEntries}
use loca.Base.Dict.Laws.{lookup-remove, AllEntries-insert, AllEntries-lookup}
use loca.Protocol.Access.{Invite}
use loca.Hub.State.{Hub, Room}
use loca.Hub.Attention.Resolution.Frame.{core}
use loca.Hub.Invites.{
  named, named_invites, remove_tokens, cascade, close_connections, revoke_sessions_for_davet,
  end_davets, revoke_invites_for,
}

-- A davet is filed under its token.
abbrev pub Filed : String → Invite → Type 0
Filed token i = i.token ≡ token

unfoldable pub in_tokens : String → List Invite → Bool
in_tokens token is = any (λ i. i.token == token) is

pub lookup-remove_tokens :
    (token : String) (is : List Invite) (m : Dict String Invite)
    → Dict.lookup token (remove_tokens is m)
      ≡ (if in_tokens token is then none else Dict.lookup token m)
unfolding remove_tokens in_tokens any
lookup-remove_tokens token [] m = refl
lookup-remove_tokens token (i ∷ is) m =
    ground
      (arith, lookup-remove_tokens token is (Dict.remove i.token m), lookup-remove i.token token m)

-- A davet of the name that is filed is among those that are ended.
in_named :
    (room name token : String) (i : Invite) (m : Dict String Invite)
    → AllEntries Filed m
    → Dict.lookup token m ≡ some i
    → named room name i ≡ true
    → in_tokens token (named_invites room name (Dict.values m)) ≡ true
unfolding in_tokens named_invites any Dict.lookup
in_named room name token i [] f e n = cc
in_named room name token i ((k, j) ∷ m) f e n = ground (
  arith,
  in_named room name token i m f.1,
  string_eq.equals_iff k token,
  string_eq.equals_iff j.token token,
  f.0,
)

-- No davet of the room is under the name.
abbrev pub NoneNamed : String → String → Dict String Invite → Type 0
NoneNamed room name m =
    (token : String) (i : Invite) → Dict.lookup token m ≡ some i → named room name i ≡ false

remove_tokens-NoneNamed :
    (room name : String) (m : Dict String Invite)
    → AllEntries Filed m
    → NoneNamed room name (remove_tokens (named_invites room name (Dict.values m)) m)
remove_tokens-NoneNamed room name m f token i e =
    let is = named_invites room name (Dict.values m) in
    elim (Bool-cases (named room name i)) [
      | inr other ↦ other
      | inl hit ↦ ground (arith, lookup-remove_tokens token is m, in_named room name token i m f)
    ]

close_invites : (room name : String) (h : Hub) → (close_connections room name h).invites ≡ h.invites
unfolding close_connections
close_invites room name h = ground arith

sessions_invites :
    (room member : String) (h : Hub) → (revoke_sessions_for_davet room member h).invites ≡ h.invites
unfolding revoke_sessions_for_davet
sessions_invites room member h = ground arith

pub cascade_invites : (is : List Invite) (h : Hub) → (cascade is h).invites ≡ h.invites
unfolding cascade
cascade_invites [] h = refl
cascade_invites (i ∷ is) h =
    cascade_invites is _ ∙ close_invites i.room i.name _ ∙ sessions_invites i.room i.member h

end_davets_invites :
    (h h' : Hub) (is : List Invite) (saved : Bool)
    → end_davets h is saved ≡ got h'
    → h'.invites ≡ remove_tokens is h.invites
unfolding end_davets remove_tokens
end_davets_invites h h' [] saved e = ground arith
end_davets_invites h h' (i ∷ is) saved e =
    ground
      (arith, cascade_invites (i ∷ is) (record h { invites = remove_tokens (i ∷ is) h.invites }))

-- Ending a name's davets in a room leaves none of them, if every davet is filed under its token.
pub revoke_invites_for-NoneNamed :
    (h h' : Hub) (room name : String) (saved : Bool)
    → AllEntries Filed h.invites
    → revoke_invites_for h room name saved ≡ got h'
    → NoneNamed room name h'.invites
unfolding revoke_invites_for
revoke_invites_for-NoneNamed h h' room name saved f e =
    rw (end_davets_invites h h' (named_invites room name (Dict.values h.invites)) saved e)
      (remove_tokens-NoneNamed room name h.invites f)

-- Rooms under a revocation: a property that frames have no part in survives it.
module _ {ℓ} (P : String → Room → Type ℓ)
    (P-core : (name : String) (r r' : Room) → core r ≡ core r' → P name r → P name r') where
  close-P :
      (room name : String) (h : Hub)
      → AllEntries P h.rooms
      → AllEntries P (close_connections room name h).rooms
  unfolding close_connections core
  close-P room name h all = elim (Option-cases (Dict.lookup room h.rooms)) [
    | inl e ↦ rw (e, close_connections) all
    | inr (r, e) ↦
        rw (e, close_connections)
          (AllEntries-insert P room _ h.rooms
            (P-core room r _ refl (AllEntries-lookup P room r h.rooms all e)) all)
  ]

  sessions_rooms :
      (room member : String) (h : Hub) → (revoke_sessions_for_davet room member h).rooms ≡ h.rooms
  unfolding revoke_sessions_for_davet
  sessions_rooms room member h = ground arith

  pub cascade-P :
      (is : List Invite) (h : Hub) → AllEntries P h.rooms → AllEntries P (cascade is h).rooms
  unfolding cascade
  cascade-P [] h all = all
  cascade-P (i ∷ is) h all = cascade-P is _ (
      close-P i.room i.name (revoke_sessions_for_davet i.room i.member h)
        (rw (sessions_rooms i.room i.member h) all))

  end_davets-P :
      (h h' : Hub) (is : List Invite) (saved : Bool)
      → end_davets h is saved ≡ got h'
      → AllEntries P h.rooms
      → AllEntries P h'.rooms
  unfolding end_davets
  end_davets-P h h' [] saved e all =
      let same : h ≡ h' = cc in subst (λ (x : Hub). AllEntries P x.rooms) same all
  end_davets-P h h' (i ∷ is) true e all =
      let same : cascade (i ∷ is) (record h { invites = remove_tokens (i ∷ is) h.invites }) ≡ h' =
        cc in
      subst (λ (x : Hub). AllEntries P x.rooms) same
        (cascade-P (i ∷ is) (record h { invites = remove_tokens (i ∷ is) h.invites }) all)
  end_davets-P h h' (i ∷ is) false e all = cc

  pub revoke_invites_for-P :
      (h h' : Hub) (room name : String) (saved : Bool)
      → revoke_invites_for h room name saved ≡ got h'
      → AllEntries P h.rooms
      → AllEntries P h'.rooms
  unfolding revoke_invites_for
  revoke_invites_for-P h h' room name saved e all =
      end_davets-P h h' (named_invites room name (Dict.values h.invites)) saved e all
