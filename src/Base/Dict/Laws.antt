-- ===== src/Base/Dict/Laws.antt =====
-- Laws of the dictionary's operations, in the form of conditionals.
use loca.Base.Dict.{Dict, lookup, contains_key, insert, remove, Distinct, retain, AllEntries}
use Prim.Native.Nat.{suc, ◌≤◌}
use mathlib.Core.Path.{◌≡◌, refl, subst₂}
use mathlib.Core.Logic.{inl, inr}
use mathlib.Core.Bool.{Bool, true, false, ◌||◌, ◌&&◌, not}
use mathlib.Core.Option.{none, some}
use mathlib.Core.List.{[], ◌∷◌}
use native.Mathlib.Omega.{arith}
use loca.Base.Tests.{if◌then◌else◌, Bool-cases, is_some}
use loca.Base.Keys.{Eq, ◌==◌}
use loca.Base.Lists.{length}

module _ {ℓ} {K : Type 0} {V : Type ℓ} ⦃e : Eq K⦄ where
  pub lookup-insert :
      (key asked : K) (v : V) (m : Dict K V)
      → lookup asked (insert key v m) ≡ (if key == asked then some v else lookup asked m)
  unfolding lookup insert
  lookup-insert key asked v [] = refl
  lookup-insert key asked v ((at, w) ∷ m) = ground (
    arith,
    e.equals_iff key asked,
    e.equals_iff at key,
    e.equals_iff at asked,
    lookup-insert key asked v m,
  )

  pub lookup-remove :
      (k j : K) (m : Dict K V) → lookup j (remove k m) ≡ (if k == j then none else lookup j m)
  unfolding lookup remove
  lookup-remove k j [] = ground arith
  lookup-remove k j ((i, w) ∷ m) =
      ground (arith, e.equals_iff k j, e.equals_iff i k, e.equals_iff i j, lookup-remove k j m)

  pub contains_key-lookup : (k : K) (m : Dict K V) → contains_key k m ≡ is_some (lookup k m)
  unfolding lookup contains_key
  contains_key-lookup k [] = refl
  contains_key-lookup k ((i, w) ∷ m) = ground (arith, contains_key-lookup k m)

  pub contains_key-insert :
      (k j : K) (v : V) (m : Dict K V)
      → contains_key j (insert k v m) ≡ (k == j || contains_key j m)
  unfolding contains_key insert
  contains_key-insert k j v [] = refl
  contains_key-insert k j v ((i, w) ∷ m) =
      ground
        (arith, e.equals_iff k j, e.equals_iff i k, e.equals_iff i j, contains_key-insert k j v m)

  pub contains_key-remove :
      (k j : K) (m : Dict K V) → contains_key j (remove k m) ≡ (not (k == j) && contains_key j m)
  unfolding contains_key remove
  contains_key-remove k j [] = ground arith
  contains_key-remove k j ((i, w) ∷ m) =
      ground
        (arith, e.equals_iff k j, e.equals_iff i k, e.equals_iff i j, contains_key-remove k j m)

  pub contains_key-retain :
      (p : K → V → Bool) (k : K) (m : Dict K V)
      → contains_key k m ≡ false
      → contains_key k (retain p m) ≡ false
  unfolding contains_key retain
  contains_key-retain p k [] h = refl
  contains_key-retain p k ((i, w) ∷ m) h = ground (arith, contains_key-retain p k m)

  pub length-insert :
      (k : K) (v : V) (m : Dict K V)
      → length (insert k v m) ≡ (if contains_key k m then length m else suc (length m))
  unfolding insert contains_key
  length-insert k v [] = refl
  length-insert k v ((i, w) ∷ m) = ground (arith, length-insert k v m)

  pub insert-insert : (k : K) (v w : V) (m : Dict K V) → insert k v (insert k w m) ≡ insert k v m
  unfolding insert
  insert-insert k v w [] = ground (arith, e.equals_iff k k)
  insert-insert k v w ((i, u) ∷ m) = ground (arith, e.equals_iff k k, insert-insert k v w m)

  pub insert-lookup : (k : K) (v : V) (m : Dict K V) → lookup k m ≡ some v → insert k v m ≡ m
  unfolding insert lookup
  insert-lookup k v [] h = cc
  insert-lookup k v ((i, u) ∷ m) h = ground (arith, e.equals_iff i k, insert-lookup k v m)

  pub remove_absent : (k : K) (m : Dict K V) → lookup k m ≡ none → remove k m ≡ m
  unfolding remove lookup
  remove_absent k [] h = refl
  remove_absent k ((i, u) ∷ m) h = ground (arith, remove_absent k m)

  pub remove-insert :
      (k : K) (v : V) (m : Dict K V) → lookup k m ≡ none → remove k (insert k v m) ≡ m
  unfolding remove insert lookup
  remove-insert k v [] h = ground (arith, e.equals_iff k k)
  remove-insert k v ((i, u) ∷ m) h =
      ground (arith, e.equals_iff k k, remove_absent k m, remove-insert k v m)

  pub length-remove-le : (k : K) (m : Dict K V) → length (remove k m) ≤ length m
  unfolding remove
  length-remove-le k [] = omega arith
  length-remove-le k ((i, w) ∷ m) = ground (arith, length-remove-le k m)

  pub Distinct-insert : (k : K) (v : V) (m : Dict K V) → Distinct m → Distinct (insert k v m)
  unfolding insert contains_key
  Distinct-insert k v [] d = (refl, tt)
  Distinct-insert k v ((i, w) ∷ m) d = ground (
    arith,
    e.equals_iff i k,
    e.equals_iff k i,
    contains_key-insert k i v m,
    Distinct-insert k v m d.1,
  )

  pub Distinct-remove : (k : K) (m : Dict K V) → Distinct m → Distinct (remove k m)
  unfolding remove
  Distinct-remove k [] d = tt
  Distinct-remove k ((i, w) ∷ m) d =
      ground (arith, contains_key-remove k i m, Distinct-remove k m d.1)

  pub Distinct-retain : (p : K → V → Bool) (m : Dict K V) → Distinct m → Distinct (retain p m)
  unfolding retain
  Distinct-retain p [] d = tt
  Distinct-retain p ((i, w) ∷ m) d =
      ground (arith, contains_key-retain p i m, Distinct-retain p m d.1)

module _ {ℓ} {K : Type 0} {V : Type ℓ} where
  pub length-retain-le : (p : K → V → Bool) (m : Dict K V) → length (retain p m) ≤ length m
  unfolding retain
  length-retain-le p [] = omega arith
  length-retain-le p ((i, w) ∷ m) = ground (arith, length-retain-le p m)

module _ {ℓ κ} {K : Type 0} {V : Type ℓ} ⦃e : Eq K⦄ (P : K → V → Type κ) where
  pub AllEntries-insert :
      (k : K) (v : V) (m : Dict K V) → P k v → AllEntries P m → AllEntries P (insert k v m)
  unfolding insert
  AllEntries-insert k v [] h a = (h, tt)
  AllEntries-insert k v ((i, w) ∷ m) h a = elim (Bool-cases (i == k)) [
    | inl hit ↦ rw hit (h, a.1)
    | inr miss ↦ rw miss (a.0, AllEntries-insert k v m h a.1)
  ]

  pub AllEntries-remove : (k : K) (m : Dict K V) → AllEntries P m → AllEntries P (remove k m)
  unfolding remove
  AllEntries-remove k [] a = tt
  AllEntries-remove k ((i, w) ∷ m) a = elim (Bool-cases (i == k)) [
    | inl hit ↦ rw hit (AllEntries-remove k m a.1)
    | inr miss ↦ rw miss (a.0, AllEntries-remove k m a.1)
  ]

  pub AllEntries-lookup :
      (k : K) (v : V) (m : Dict K V) → AllEntries P m → lookup k m ≡ some v → P k v
  unfolding lookup
  AllEntries-lookup k v [] a h = cc
  AllEntries-lookup k v ((i, w) ∷ m) a h = elim (Bool-cases (i == k)) [
    | inl hit ↦ subst₂ P ((e.equals_iff i k).0 hit) (ground arith) a.0
    | inr miss ↦ AllEntries-lookup k v m a.1 (ground arith)
  ]

module _ {ℓ κ} {K : Type 0} {V : Type ℓ} (P : K → V → Type κ) where
  pub AllEntries-retain :
      (p : K → V → Bool) (m : Dict K V) → AllEntries P m → AllEntries P (retain p m)
  unfolding retain
  AllEntries-retain p [] a = tt
  AllEntries-retain p ((i, w) ∷ m) a = elim (Bool-cases (p i w)) [
    | inl hit ↦ rw hit (a.0, AllEntries-retain p m a.1)
    | inr miss ↦ rw miss (AllEntries-retain p m a.1)
  ]

module _ {ℓ} {K : Type 0} {V : Type ℓ} ⦃e : Eq K⦄ where
  -- What is left after `retain` passed the test.
  pub lookup-retain :
      (p : K → V → Bool) (k : K) (v : V) (m : Dict K V)
      → lookup k (retain p m) ≡ some v
      → p k v ≡ true
  unfolding lookup retain
  lookup-retain p k v [] h = cc
  lookup-retain p k v ((i, w) ∷ m) h = ground (arith, e.equals_iff i k, lookup-retain p k v m)
