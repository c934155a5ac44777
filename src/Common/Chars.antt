-- ===== src/Common/Chars.antt =====
-- What the program uses of Rust's `str` character by character. `len` counts bytes, as `str::len`.
use Prim.Native.Char.{Char, code}
use Prim.Native.Nat.{ℕ, zero, suc}
use Prim.Native.String.{String}
use mathlib.Core.Bool.{Bool, true, false, ◌&&◌, ◌||◌}
use mathlib.Core.List.{List, [], ◌∷◌}
use ndc.Common.Bools.{leb, ◌==◌, if◌then◌else◌}

abbrev within : ℕ → ℕ → ℕ → Bool
within low high n = leb low n && leb n high

-- `c.is_whitespace()`: the property White_Space of Unicode.
abbrev is_whitespace : Char → Bool
is_whitespace c =
    let n = code c in
    within 9 13 n
    || n == 32
    || n == 133
    || n == 160
    || n == 5760
    || within 8192 8202 n
    || within 8232 8233 n
    || n == 8239
    || n == 8287
    || n == 12288

abbrev pub is_empty : String → Bool
is_empty String.[] = true
is_empty (String.◌∷◌ c s) = false

-- `s.trim_start()`.
abbrev pub trim_start : String → String
trim_start String.[] = String.[]
trim_start (String.◌∷◌ c s) =
    let rest = trim_start s in if is_whitespace c then rest else String.◌∷◌ c s

-- `s.trim_end()`.
abbrev pub trim_end : String → String
trim_end String.[] = String.[]
trim_end (String.◌∷◌ c s) =
    let rest = trim_end s in
    if is_empty rest && is_whitespace c then String.[] else String.◌∷◌ c rest

-- `s.trim()`.
unfoldable pub trim : String → String
trim s = trim_end (trim_start s)

-- `s.chars().take(n).collect()`.
unfoldable pub take_chars : ℕ → String → String
take_chars zero s = String.[]
take_chars (suc n) String.[] = String.[]
take_chars (suc n) (String.◌∷◌ c s) = String.◌∷◌ c (take_chars n s)

abbrev with_word : String → List String → List String
with_word w ws = if is_empty w then ws else w ∷ ws

-- The word that a text begins with, and the words after it.
abbrev first_word : String → String × List String
first_word String.[] = (String.[], [])
first_word (String.◌∷◌ c s) =
    let (w, ws) = first_word s in
    if is_whitespace c then (String.[], with_word w ws) else (String.◌∷◌ c w, ws)

-- `s.split_whitespace().collect()`.
unfoldable pub split_whitespace : String → List String
split_whitespace s = let (w, ws) = first_word s in with_word w ws

-- The line that a text begins with, and the lines after it.
abbrev first_line : String → String × List String
first_line String.[] = (String.[], [])
first_line (String.◌∷◌ c s) =
    let (l, ls) = first_line s in if code c == 10 then (String.[], l ∷ ls) else (String.◌∷◌ c l, ls)

-- A line without the carriage return at its end.
abbrev without_return : String → String
without_return String.[] = String.[]
without_return (String.◌∷◌ c s) =
    let rest = without_return s in
    if is_empty s && code c == 13 then String.[] else String.◌∷◌ c rest

-- The last line counts when it is not empty.
abbrev ended : String → List String → List String
ended l [] = if is_empty l then [] else l ∷ []
ended l (next ∷ ls) = without_return l ∷ ended next ls

-- `s.lines().collect()`.
unfoldable pub lines : String → List String
lines s = let (l, ls) = first_line s in ended l ls
