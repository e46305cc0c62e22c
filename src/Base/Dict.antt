-- ===== src/Base/Dict.antt =====
-- `HashMap` as an association list. Iteration order is the list's; Rust leaves it open.
pub mod Laws
use Prim.Native.Nat.{ℕ}
use mathlib.Core.Bool.{Bool, true, false, ◌||◌}
use mathlib.Core.Option.{Option, none, some}
use mathlib.Core.List.{List, [], ◌∷◌, map}
use mathlib.Core.Path.{◌≡◌}
use loca.Base.Tests.{if◌then◌else◌}
use loca.Base.Keys.{Eq, ◌==◌}
use loca.Base.Lists.{length}

abbrev pub Dict {ℓ} : Type 0 → Type ℓ → Type ℓ
Dict K V = List (K × V)

module _ {ℓ} {K : Type 0} {V : Type ℓ} ⦃e : Eq K⦄ where
  -- `get`
  unfoldable pub lookup : K → Dict K V → Option V
  lookup key [] = none
  lookup key ((at, v) ∷ m) = if at == key then some v else lookup key m

  unfoldable pub contains_key : K → Dict K V → Bool
  contains_key key [] = false
  contains_key key ((at, v) ∷ m) = at == key || contains_key key m

  -- `insert`: an old entry is overwritten in its place.
  unfoldable pub insert : K → V → Dict K V → Dict K V
  insert key v [] = (key, v) ∷ []
  insert key v ((at, w) ∷ m) = if at == key then (key, v) ∷ m else (at, w) ∷ insert key v m

  unfoldable pub remove : K → Dict K V → Dict K V
  remove key [] = []
  remove key ((at, w) ∷ m) = let rest = remove key m in if at == key then rest else (at, w) ∷ rest

  -- No key has two entries, as in every `HashMap`.
  abbrev pub Distinct : Dict K V → Type 0
  Distinct [] = Unit
  Distinct ((key, v) ∷ m) = (contains_key key m ≡ false) × Distinct m

module _ {ℓ} {K : Type 0} {V : Type ℓ} where
  -- `retain`
  unfoldable pub retain : (K → V → Bool) → Dict K V → Dict K V
  retain p [] = []
  retain p ((key, v) ∷ m) = let rest = retain p m in if p key v then (key, v) ∷ rest else rest

  -- `values`
  abbrev pub values : Dict K V → List V
  values [] = []
  values ((key, v) ∷ m) = v ∷ values m

  -- `keys`
  abbrev pub keys : Dict K V → List K
  keys [] = []
  keys ((key, v) ∷ m) = key ∷ keys m

module _ {ℓ κ} {K : Type 0} {V : Type ℓ} where
  -- `P` holds of every entry.
  abbrev pub AllEntries : (K → V → Type κ) → Dict K V → Type κ
  AllEntries P [] = Unit
  AllEntries P ((key, v) ∷ m) = P key v × AllEntries P m
