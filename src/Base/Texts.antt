-- ===== src/Base/Texts.antt =====
-- Texts: `format!`, decimal numbers, prefixes, and the parts of the standard library that depend
-- on Unicode, which are parameters.
use Prim.Native.Nat.{ℕ, zero, suc, ◌/◌, ◌%◌}
use Prim.Native.String.{String, len, slice, ◌++◌ as concat}
use mathlib.Core.Bool.{Bool}
use mathlib.Core.Option.{Option, none, some}
use mathlib.Core.List.{List, [], ◌∷◌}
use text.Mathlib.Text.{starts_with as text_starts_with}
use loca.Base.Tests.{if◌then◌else◌, ltb}
use loca.Base.Keys.{string_eq}
use loca.Base.Lists.{contains}

-- `format!`, as the list of its parts
unfoldable pub format : List String → String
format [] = ""
format (s ∷ parts) = concat s (format parts)

digit : ℕ → String
digit zero = "0"
digit (suc zero) = "1"
digit (suc (suc zero)) = "2"
digit (suc (suc (suc zero))) = "3"
digit (suc (suc (suc (suc zero)))) = "4"
digit (suc (suc (suc (suc (suc zero))))) = "5"
digit (suc (suc (suc (suc (suc (suc zero)))))) = "6"
digit (suc (suc (suc (suc (suc (suc (suc zero))))))) = "7"
digit (suc (suc (suc (suc (suc (suc (suc (suc zero)))))))) = "8"
digit (suc (suc (suc (suc (suc (suc (suc (suc (suc _))))))))) = "9"

show_digits : ℕ → ℕ → String
show_digits zero n = ""
show_digits (suc fuel) n =
    let rest = show_digits fuel (n / 10) in
    if ltb n 10 then digit n else concat rest (digit (n % 10))

-- A number in decimal, as `{}` prints it. A number has no more digits than its value and one.
unfoldable pub show : ℕ → String
unfolding digit show_digits
show n = show_digits (suc n) n

unfoldable pub starts_with : String → String → Bool
starts_with s prefix = text_starts_with s prefix

unfoldable pub strip_prefix : String → String → Option String
unfolding starts_with
strip_prefix prefix s = if starts_with s prefix then some (slice s (len prefix) (len s)) else none

-- `eq_ignore_ascii_case("all")`
unfoldable pub is_all : String → Bool
unfolding contains
is_all s = contains s ("all" ∷ "All" ∷ "aLl" ∷ "alL" ∷ "ALl" ∷ "AlL" ∷ "aLL" ∷ "ALL" ∷ [])

-- `str::to_lowercase`, and `str::split` at the characters that are neither alphanumeric nor one
-- of `@`, `-`, `_`.
pub record Unicode : Type 0 where
  pub to_lowercase : String → String
  pub fragments : String → List String
