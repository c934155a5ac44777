-- ===== src/Runtime/Truncation.antt =====
-- crates/runtime/src/tools/output_truncation.rs: what is shown of a long output, and the reading of what
-- was saved. The path under which an output is saved and the answers of the file system are arguments.
pub mod Keeping
use Prim.Native.Nat.{◌-◌}
use Prim.Native.String.{◌++◌, len}
use ndc.Common.{
  ℕ, zero, suc, ◌+◌, String, Bool, true, false, not, Option, none, some, List, [], ◌∷◌,
  if◌then◌else◌, ltb, leb, length, ◌||◌, Result, ok, err,
}
use ndc.Common.Chars.{lines}
use ndc.Common.Text.{join, decimal}
use ndc.Core.Intent.{FilePath}

pub record TruncatedOutput : Type 0 where
  pub content : String
  pub truncated : Bool
  pub output_path : Option FilePath
  pub original_size : ℕ
  pub line_count : ℕ

pub record TruncationConfig : Type 0 where
  pub max_lines : ℕ
  pub max_bytes : ℕ
  pub output_dir : FilePath
  pub save_to_disk : Bool
  pub head_lines : ℕ
  pub tail_lines : ℕ

abbrev pub default_config : TruncationConfig
default_config = record {
  max_lines = 2000;
  max_bytes = 51200;
  output_dir = "/tmp/ndc-outputs";
  save_to_disk = true;
  head_lines = 100;
  tail_lines = 100;
}

abbrev pub min : ℕ → ℕ → ℕ
min a b = if leb a b then a else b

abbrev pub max : ℕ → ℕ → ℕ
max a b = if leb a b then b else a

-- `v[..n]`.
abbrev pub take : ℕ → List String → List String
take zero xs = []
take (suc n) [] = []
take (suc n) (x ∷ xs) = x ∷ take n xs

-- `v[n..]`.
abbrev pub drop : ℕ → List String → List String
drop zero xs = xs
drop (suc n) [] = []
drop (suc n) (x ∷ xs) = drop n xs

abbrev pub head_end : TruncationConfig → List String → ℕ
head_end c ls = min c.head_lines (length ls)

abbrev pub tail_start : TruncationConfig → List String → ℕ
tail_start c ls = max (length ls - c.tail_lines) (head_end c ls)

abbrev pub head_of : TruncationConfig → List String → List String
head_of c ls = take (head_end c ls) ls

abbrev pub tail_of : TruncationConfig → List String → List String
tail_of c ls = drop (tail_start c ls) ls

-- The lines that are left out, as the notice counts them.
abbrev pub omitted : TruncationConfig → List String → ℕ
omitted c ls = length ls - head_end c ls - length (tail_of c ls)

unfoldable pub truncate_output : TruncationConfig → FilePath → String → ℕ → ℕ → TruncatedOutput
unfolding lines join decimal
truncate_output c path output line_count byte_count =
    let ls = lines output in
    record {
      content =
          join "\n" (head_of c ls)
          ++ "\n\n... truncated ("
          ++ decimal (omitted c ls)
          ++ "/"
          ++ decimal (length ls)
          ++ " lines, "
          ++ decimal byte_count
          ++ " bytes) ...\n\n"
          ++ join "\n" (tail_of c ls)
          ++ "\n\nHint: Use read tool with offset/limit to view specific portions. Full output saved to: "
          ++ (if c.save_to_disk then "see output_path below" else "(disk save disabled)");
      truncated = true;
      output_path = if c.save_to_disk then some path else none;
      original_size = byte_count;
      line_count = line_count;
    }

unfoldable pub truncate : TruncationConfig → FilePath → String → TruncatedOutput
unfolding lines truncate_output
truncate c path output =
    let line_count = length (lines output) in
    let byte_count = len output in
    let long = truncate_output c path output line_count byte_count in
    if not (ltb c.max_lines line_count || ltb c.max_bytes byte_count)
    then record {
      content = output;
      truncated = false;
      output_path = none;
      original_size = byte_count;
      line_count = line_count;
    }
    else long

-- `lines[start..end]` for the offset and the limit.
abbrev pub range : ℕ → Option ℕ → List String → List String
range offset none ls = drop (min offset (length ls)) ls
range offset (some limit) ls =
    let start = min offset (length ls) in
    let end = min (start + limit) (length ls) in
    if leb end start then [] else take (end - start) (drop start ls)

-- What the file system answers: whether the file is there, and what it holds.
unfoldable pub read_partial_output :
    FilePath → Bool → Result String String → ℕ → Option ℕ → Result String String
unfolding lines join
read_partial_output path exists content offset limit =
    let found : Result String String = elim content [
      | err e ↦ err ("Failed to read output file: " ++ e)
      | ok text ↦ ok (join "\n" (range offset limit (lines text)))
    ] in
    if not exists then err ("Output file not found: " ++ path) else found
