-- ===== src/Hub/Attention/Addressing.antt =====
-- Which caretakers a message addresses (crates/server/src/hub/attention/addressing.rs).
use loca.Base.{
  String, Option, none, some, List, [], ◌∷◌, ◌++◌, ◌==◌, string_eq, str_le, if◌then◌else◌, contains,
  sort_by, strip_prefix, Unicode, Eq,
}
use loca.Protocol.Chat.{Message}

-- `Vec::dedup`: of equal neighbours the first stays.
unfoldable pub dedup {ℓ} : {A : Type ℓ} ⦃e : Eq A⦄ → List A → List A
dedup [] = []
dedup (x ∷ []) = x ∷ []
dedup (x ∷ y ∷ xs) = let rest = dedup (y ∷ xs) in if x == y then rest else x ∷ rest

-- A name in lower case, if a caretaker has it.
caretaker : Unicode → List String → Option String → List String
caretaker u caretakers none = []
caretaker u caretakers (some name) =
    if contains (u.to_lowercase name) caretakers then u.to_lowercase name ∷ [] else []

mentioned : List String → List String → List String
mentioned caretakers [] = []
mentioned caretakers (token ∷ tokens) =
    let rest = mentioned caretakers tokens in
    elim (strip_prefix "@" token) [
      | none ↦ rest
      | some name ↦ if contains name caretakers then name ∷ rest else rest
    ]

unfoldable pub addressed_caretakers : Unicode → List String → Message → List String
unfolding caretaker mentioned dedup
addressed_caretakers u caretakers m = dedup (
    sort_by str_le (
      caretaker u caretakers m.target
      ++ (caretaker u caretakers m.reply_to_sender
          ++ mentioned caretakers (u.fragments (u.to_lowercase m.text)))))
