-- ===== src/Hub/Attention/Owner.antt =====
-- Who an attention is for (crates/server/src/hub/attention/owner.rs). `trim` is `str::trim`; `ready` is what
-- the runtime's health says of a name.
use loca.Base.{
  String, Bool, false, not, ◌&&◌, Option, none, some, List, [], ◌∷◌, ◌==◌, string_eq, option_eq,
  if◌then◌else◌, ltb, or_else, map, map_option, retain, find, any, sort_by, str_le, contains,
}
use loca.Base.Dict
use loca.Protocol.Attention.{AttentionAudience}
use loca.Hub.State.{Hub, Room, Seat}
use loca.Hub.Attention.Addressing.{dedup}

unfoldable pub is_seated : Room → String → Bool
is_seated r name = any (λ (s : Seat). s.name == name && ltb 0 s.count) (Dict.values r.members)

abbrev pub head : List String → Option String
head [] = none
head (x ∷ xs) = some x

-- The owner, and the participants. Of a group it is the first who is seated and ready, or the first.
unfoldable pub resolve_attention_owner :
    (String → String) → (String → Bool) → Room → AttentionAudience → Option (String × List String)
unfolding is_seated
resolve_attention_owner trim ready r AttentionAudience.lead =
    map_option (λ lead. (lead, lead ∷ [])) r.settings.lead
resolve_attention_owner trim ready r (AttentionAudience.person given) =
    let name = trim given in if name == "" then none else some (name, name ∷ [])
resolve_attention_owner trim ready r (AttentionAudience.group given) =
    let names = dedup (sort_by str_le (retain (λ name. not (name == "")) (map trim given))) in
    map_option (λ owner. (owner, names))
      (or_else (find (λ name. is_seated r name && ready name) names) (head names))

unfoldable pub caretaker_owns_attention : Hub → String → String → String → Bool
caretaker_owns_attention h room id actor = elim (Dict.lookup room h.rooms) [
  | none ↦ false
  | some r ↦ elim (Dict.lookup id r.attentions) [
    | none ↦ false
    | some a ↦ contains actor h.caretakers && a.owner == some actor
  ]
]
