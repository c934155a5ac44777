-- ===== src/Runtime/Truncation/Keeping.antt =====
-- crates/runtime/src/tools/output_truncation.rs: what is shown and what can be read add up.
use ndc.Common.{
  ℕ, zero, suc, ◌+◌, ◌-◌, ◌≤◌, String, ◌≡◌, refl, sym, ap, ◌∙◌, some, List, [], ◌∷◌, ◌++◌,
  if◌then◌else◌, leb, length, arith,
}
use ndc.Runtime.Truncation.{
  TruncationConfig, take, drop, min, max, head_end, tail_start, head_of, tail_of, omitted, range,
}

take-drop : (n : ℕ) (xs : List String) → take n xs ++ drop n xs ≡ xs
take-drop zero xs = refl
take-drop (suc n) [] = refl
take-drop (suc n) (x ∷ xs) = ap (◌∷◌ x) (take-drop n xs)

drop-nil : (n : ℕ) → drop n [] ≡ []
drop-nil zero = refl
drop-nil (suc n) = refl

drop-drop : (n k : ℕ) (xs : List String) → drop k (drop n xs) ≡ drop (n + k) xs
drop-drop zero k xs = ap (λ i. drop i xs) (omega arith)
drop-drop (suc n) k [] = drop-nil k ∙ sym (drop-nil (suc n + k))
drop-drop (suc n) k (x ∷ xs) =
    let step : suc (n + k) ≡ suc n + k = omega arith in
    drop-drop n k xs ∙ ap (λ i. drop i (x ∷ xs)) step

length-drop : (n : ℕ) (xs : List String) → length (drop n xs) ≡ length xs - n
length-drop zero xs = omega arith
length-drop (suc n) [] = omega arith
length-drop (suc n) (x ∷ xs) = omega (arith, length-drop n xs)

length-take : (n : ℕ) (xs : List String) → n ≤ length xs → length (take n xs) ≡ n
length-take zero xs h = refl
length-take (suc n) [] h = absurd (omega arith)
length-take (suc n) (x ∷ xs) h = ap suc (length-take n xs (omega arith))

min_le : (a b : ℕ) → a ≤ b → min a b ≡ a
min_le a b h = ground arith

max_bounds : (a b n : ℕ) → a ≤ n → b ≤ n → (b ≤ max a b) × (max a b ≤ n)
max_bounds a b n h k = ground arith

max_left : (a b : ℕ) → a ≤ max a b
max_left a b = ground arith

rest : (n h t : ℕ) → h ≤ t → t ≤ n → n - h - (n - t) ≡ t - h
rest n h t a b = omega arith

head_short : {a b c : ℕ} → a ≡ b → b ≤ c → a ≤ c
head_short e h = omega arith

tail_short : {a m : ℕ} (n t : ℕ) → a ≡ n - t → n - m ≤ t → a ≤ m
tail_short n t e h = omega arith

min_bounds : (a b : ℕ) → (min a b ≤ a) × (min a b ≤ b)
min_bounds a b = ground arith

slice_lem :
    (h t : ℕ) (xs : List String) → (if leb t h then [] else take (t - h) xs) ≡ take (t - h) xs
slice_lem h t xs = ground arith

-- The lines between two positions, read by their offset and their number, and the lines after them.
range-drop :
    (h t : ℕ) (ls : List String)
    → h ≤ t
    → t ≤ length ls
    → range h (some (t - h)) ls ++ drop t ls ≡ drop h ls
range-drop h t ls below inside =
    let start : min h (length ls) ≡ h = ground arith in
    let end : min (h + (t - h)) (length ls) ≡ t = ground arith in
    let back : h + (t - h) ≡ t = omega arith in
    let middle : range h (some (t - h)) ls ≡ take (t - h) (drop h ls) =
      ap
        (λ s.
          if leb (min (s + (t - h)) (length ls)) s
          then []
          else take (min (s + (t - h)) (length ls) - s) (drop s ls))
        start
      ∙ ap (λ e. if leb e h then [] else take (e - h) (drop h ls)) end
      ∙ slice_lem h t (drop h ls) in
    ap (◌++ drop t ls) middle
    ∙ ap (λ i. take (t - h) (drop h ls) ++ drop i ls) (sym back)
    ∙ ap (take (t - h) (drop h ls) ++◌) (sym (drop-drop h (t - h) ls))
    ∙ take-drop (t - h) (drop h ls)

-- For every configuration and every list of lines, the lines of the head, the lines that
-- read_partial_output selects with the end of the head as its offset and the count of omitted lines as
-- its limit, and the lines of the tail are together the given lines; the head has at most the configured
-- number of lines, and the tail too.
pub truncate_output-range :
    (c : TruncationConfig) (ls : List String)
    → (head_of c ls ++ (range (head_end c ls) (some (omitted c ls)) ls ++ tail_of c ls) ≡ ls)
      × (length (head_of c ls) ≤ c.head_lines)
      × (length (tail_of c ls) ≤ c.tail_lines)
truncate_output-range c ls =
    let h = head_end c ls in
    let t = tail_start c ls in
    let h_low : h ≤ c.head_lines = (min_bounds c.head_lines (length ls)).0 in
    let h_in : h ≤ length ls = (min_bounds c.head_lines (length ls)).1 in
    let t_low : h ≤ t =
      (max_bounds (length ls - c.tail_lines) h (length ls) (omega arith) h_in).0 in
    let t_in : t ≤ length ls =
      (max_bounds (length ls - c.tail_lines) h (length ls) (omega arith) h_in).1 in
    let t_far : length ls - c.tail_lines ≤ t = max_left (length ls - c.tail_lines) h in
    let tail_length : length (tail_of c ls) ≡ length ls - t = length-drop t ls in
    let head_length : length (head_of c ls) ≡ h = length-take h ls h_in in
    let gap : omitted c ls ≡ t - h =
      ap (λ k. length ls - h - k) tail_length ∙ rest (length ls) h t t_low t_in in
    (
      ap (λ k. head_of c ls ++ (range h (some k) ls ++ tail_of c ls)) gap
          ∙ ap (head_of c ls ++◌) (range-drop h t ls t_low t_in)
          ∙ take-drop h ls,
      head_short head_length h_low,
      tail_short (length ls) t tail_length t_far,
    )
