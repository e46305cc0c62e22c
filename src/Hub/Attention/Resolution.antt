-- ===== src/Hub/Attention/Resolution.antt =====
-- Closing the attentions of a condition or a wait that has progressed
-- (crates/server/src/hub/attention/lifecycle.rs).
pub mod Frame
pub mod Forward
use loca.Base.{
  ℕ, String, Bool, true, false, ◌&&◌, ◌||◌, Option, none, some, List, [], ◌∷◌, ◌==◌, string_eq,
  if◌then◌else◌, contains, format, starts_with, strip_prefix,
}
use loca.Base.Dict
use loca.Base.Dict.{Dict}
use loca.Protocol.Attention.{Attention, AttentionStatus, attention_status_eq, is_wait_cycle}
use loca.Protocol.Frames.{ServerFrame}
use loca.Hub.State.{Room, send}

unfoldable pub resolved_at : ℕ → Attention → Attention
resolved_at at a = record a { status = AttentionStatus.resolved; resolved_at = some at }

-- The ids of the entries that a filter picks.
unfoldable pub matching : (String → Attention → Bool) → Dict String Attention → List String
matching p [] = []
matching p ((id, a) ∷ m) = let rest = matching p m in if p id a then id ∷ rest else rest

-- `id` itself, or an id below it
unfoldable pub is_under : String → String → Bool
is_under id candidate = candidate == id || starts_with candidate (format (id ∷ ":" ∷ []))

resolve_condition_one : ℕ → String → Room → Room
unfolding send resolved_at
resolve_condition_one at id r = elim (Dict.lookup id r.attentions) [
  | none ↦ r
  | some a ↦
      if a.status == AttentionStatus.resolved
      then r
      else send (ServerFrame.attention (resolved_at at a))
          (record r { attentions = Dict.insert id (resolved_at at a) r.attentions })
]

resolve_condition_ids : ℕ → List String → Room → Room
unfolding resolve_condition_one
resolve_condition_ids at [] r = r
resolve_condition_ids at (id ∷ ids) r = resolve_condition_ids at ids (resolve_condition_one at id r)

-- The attentions of a condition.
unfoldable pub condition_ids : Room → String → String → List String
unfolding matching
condition_ids r room key =
    matching (λ candidate a. is_under (format ("attention:" ∷ room ∷ ":" ∷ key ∷ [])) candidate)
      r.attentions

unfoldable pub resolve_condition_attention : Room → String → String → ℕ → Room
unfolding resolve_condition_ids
resolve_condition_attention r room key at = resolve_condition_ids at (condition_ids r room key) r

-- The mark of a wait cycle goes with its attention.
forget_mark : String → String → Attention → Room → Room
forget_mark room id a r =
    if is_wait_cycle a.reason
    then elim (strip_prefix (format ("attention:" ∷ room ∷ ":" ∷ [])) id) [
      | none ↦ r
      | some key ↦ record r { care_marks = Dict.remove key r.care_marks }
    ]
    else r

resolve_wait_one : String → ℕ → String → Room → Room
unfolding send resolved_at forget_mark
resolve_wait_one room at id r = elim (Dict.lookup id r.attentions) [
  | none ↦ r
  | some a ↦
      if a.status == AttentionStatus.resolved
      then r
      else send (ServerFrame.attention (resolved_at at a)) (
          forget_mark room id a
            (record r { attentions = Dict.insert id (resolved_at at a) r.attentions }))
]

resolve_wait_ids : String → ℕ → List String → Room → Room
unfolding resolve_wait_one
resolve_wait_ids room at [] r = r
resolve_wait_ids room at (id ∷ ids) r = resolve_wait_ids room at ids (resolve_wait_one room at id r)

-- The attentions of an overdue wait, and those of the wait cycles that the waiter is in.
unfoldable pub wait_ids : Room → String → String → List String
unfolding matching
wait_ids r room waiter =
    let overdue = format ("attention:" ∷ room ∷ ":wait:" ∷ waiter ∷ []) in
    matching
      (λ id a. is_under overdue id || (is_wait_cycle a.reason && contains waiter a.participants))
      r.attentions

unfoldable pub resolve_wait_attentions : Room → String → String → ℕ → Room
unfolding resolve_wait_ids
resolve_wait_attentions r room waiter at = resolve_wait_ids room at (wait_ids r room waiter) r
