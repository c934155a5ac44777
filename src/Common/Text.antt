-- ===== src/Common/Text.antt =====
-- What the program uses of Rust's `str`, over the native texts.
use Prim.Native.Nat.{ℕ, zero, suc, compare, ◌-◌, ◌+◌, ◌/◌, ◌%◌}
use Prim.Native.String.{◌++◌, String, len, slice, find}
use mathlib.Core.List.{List, [], ◌∷◌}
use mathlib.Core.Bool.{Bool, ◌&&◌}
use ndc.Common.Bools.{ltb, if◌then◌else◌}
use text.Mathlib.Text
use text.Mathlib.Text.{is_le}
pub use text.Mathlib.TextPositions.{eq_refl}

-- `s == t`.
abbrev pub str_eq : String → String → Bool
str_eq = Text.◌==◌

-- `s.contains(t)`: a text that does not occur is found past the end.
unfoldable pub contains : String → String → Bool
contains s t = is_le (compare (find s t) (len s))

-- `s.ends_with(t)`.
unfoldable pub ends_with : String → String → Bool
ends_with s t = is_le (compare (len t) (len s)) && Text.◌==◌ (slice s (len s - len t) (len s)) t

-- `texts.join(separator)`.
unfoldable pub join : String → List String → String
join separator [] = ""
join separator (s ∷ []) = s
join separator (s ∷ t ∷ ts) = s ++ separator ++ join separator (t ∷ ts)

-- `n.to_string()`, in as many steps as the fuel allows.
decimal_digits : ℕ → ℕ → String
decimal_digits zero n = ""
decimal_digits (suc fuel) n =
    let high = decimal_digits fuel (n / 10) in
    let digit = slice "0123456789" (n % 10) (n % 10 + 1) in
    if ltb n 10 then digit else high ++ digit

unfoldable pub decimal : ℕ → String
unfolding decimal_digits
decimal n = decimal_digits (suc n) n
