-- ===== src/Tests/Outputs.antt =====
-- A long output, and the reading of its saved lines.
use ndc.Common.{
  ◌≡◌, ◌≤◌, refl, true, false, some, none, String, List, [], ◌∷◌, ◌++◌, length, ok, err,
}
use ndc.Common.Chars.{lines}
use ndc.Runtime.Truncation.{
  TruncationConfig, default_config, truncate, truncate_output, read_partial_output, head_end,
  head_of, tail_of, omitted, range,
}
use ndc.Runtime.Truncation.Keeping.{truncate_output-range}

abbrev small : TruncationConfig
small = record default_config {
  max_lines = 3;
  head_lines = 1;
  tail_lines = 2;
  save_to_disk = false;
}

abbrev five : List String
five = "a" ∷ "b" ∷ "c" ∷ "d" ∷ "e" ∷ []

lines_split : lines "a\r\nb\n\nc" ≡ "a" ∷ "b" ∷ "" ∷ "c" ∷ []
unfolding lines
lines_split = refl

short_kept : (truncate small "out" "a\nb\nc\n").truncated ≡ false
unfolding truncate lines
short_kept = refl

long_cut :
    (truncate small "out" "a\nb\nc\nd\ne\n").content
    ≡ "a\n\n... truncated (2/5 lines, 10 bytes) ...\n\nd\ne\n\nHint: Use read tool with offset/limit to view specific portions. Full output saved to: (disk save disabled)"
unfolding truncate truncate_output lines
long_cut = refl

partly_read : read_partial_output "out" true (ok "a\nb\nc\nd\ne\n") 1 (some 2) ≡ ok "b\nc"
unfolding read_partial_output lines
partly_read = refl

missing : read_partial_output "out" false (err "gone") 0 none ≡ err "Output file not found: out"
unfolding read_partial_output
missing = refl

truncate_output-range_example :
    (head_of small five
        ++ (range (head_end small five) (some (omitted small five)) five ++ tail_of small five)
      ≡ five)
    × (length (head_of small five) ≤ 1)
    × (length (tail_of small five) ≤ 2)
truncate_output-range_example = truncate_output-range small five
