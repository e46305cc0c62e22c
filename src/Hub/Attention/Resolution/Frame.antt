-- ===== src/Hub/Attention/Resolution/Frame.antt =====
-- Closing attentions changes attentions, frames and care marks only.
use loca.Base.{ℕ, String, List, [], ◌∷◌, ◌≡◌, refl, ◌∙◌, arith, string_eq}
use loca.Protocol.Attention.{attention_status_eq}
use loca.Hub.State.{Room}
use loca.Hub.Attention.Resolution.{
  condition_ids, wait_ids, resolve_condition_one, resolve_condition_ids,
  resolve_condition_attention, forget_mark, resolve_wait_one, resolve_wait_ids,
  resolve_wait_attentions,
}

-- A room without its frames, attentions, care marks and waits.
unfoldable pub core : Room → Room
core r = record r { sent = []; attentions = []; care_marks = []; waits = [] }

core-resolve_condition_one :
    (at : ℕ) (id : String) (r : Room) → core (resolve_condition_one at id r) ≡ core r
unfolding resolve_condition_one core
core-resolve_condition_one at id r = ground arith

core-resolve_condition_ids :
    (at : ℕ) (ids : List String) (r : Room) → core (resolve_condition_ids at ids r) ≡ core r
unfolding resolve_condition_ids
core-resolve_condition_ids at [] r = refl
core-resolve_condition_ids at (id ∷ ids) r =
    core-resolve_condition_ids at ids (resolve_condition_one at id r)
    ∙ core-resolve_condition_one at id r

pub core-resolve_condition_attention :
    (r : Room) (room key : String) (at : ℕ)
    → core (resolve_condition_attention r room key at) ≡ core r
unfolding resolve_condition_attention
core-resolve_condition_attention r room key at =
    core-resolve_condition_ids at (condition_ids r room key) r

core-resolve_wait_one :
    (room : String) (at : ℕ) (id : String) (r : Room)
    → core (resolve_wait_one room at id r) ≡ core r
unfolding resolve_wait_one forget_mark core
core-resolve_wait_one room at id r = ground arith

core-resolve_wait_ids :
    (room : String) (at : ℕ) (ids : List String) (r : Room)
    → core (resolve_wait_ids room at ids r) ≡ core r
unfolding resolve_wait_ids
core-resolve_wait_ids room at [] r = refl
core-resolve_wait_ids room at (id ∷ ids) r =
    core-resolve_wait_ids room at ids (resolve_wait_one room at id r)
    ∙ core-resolve_wait_one room at id r

pub core-resolve_wait_attentions :
    (r : Room) (room waiter : String) (at : ℕ)
    → core (resolve_wait_attentions r room waiter at) ≡ core r
unfolding resolve_wait_attentions
core-resolve_wait_attentions r room waiter at =
    core-resolve_wait_ids room at (wait_ids r room waiter) r

resolve_wait_one_waits :
    (room : String) (at : ℕ) (id : String) (r : Room)
    → (resolve_wait_one room at id r).waits ≡ r.waits
unfolding resolve_wait_one forget_mark
resolve_wait_one_waits room at id r = ground arith

resolve_wait_ids_waits :
    (room : String) (at : ℕ) (ids : List String) (r : Room)
    → (resolve_wait_ids room at ids r).waits ≡ r.waits
unfolding resolve_wait_ids
resolve_wait_ids_waits room at [] r = refl
resolve_wait_ids_waits room at (id ∷ ids) r =
    resolve_wait_ids_waits room at ids (resolve_wait_one room at id r)
    ∙ resolve_wait_one_waits room at id r

-- Closing a wait's attentions leaves the waits themselves.
pub resolve_wait_attentions_waits :
    (r : Room) (room waiter : String) (at : ℕ)
    → (resolve_wait_attentions r room waiter at).waits ≡ r.waits
unfolding resolve_wait_attentions
resolve_wait_attentions_waits r room waiter at =
    resolve_wait_ids_waits room at (wait_ids r room waiter) r
