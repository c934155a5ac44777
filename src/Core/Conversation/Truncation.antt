-- ===== src/Core/Conversation/Truncation.antt =====
-- crates/core/src/ai_agent/helpers.rs: what `truncate_messages` keeps.
use ndc.Common.{
  ℕ, zero, suc, ◌<◌, ◌⊎◌, ◌-◌, ◌≤◌, true, false, ◌≡◌, refl, sym, ap, ◌∙◌, inl, inr, List, [], ◌∷◌,
  arith, Bool-cases, leb, length,
}
use ndc.Core.Conversation.{Message, is_system}
use ndc.Core.Conversation.Helpers.{truncate_messages, truncate_rest, drop, placeholder}

length-drop : {A : Type 0} (n : ℕ) (xs : List A) → length (drop n xs) ≡ length xs - n
length-drop zero xs = omega arith
length-drop (suc n) [] = omega arith
length-drop (suc n) (x ∷ xs) = omega (arith, length-drop n xs)

truncate_rest-le : (max : ℕ) (ms : List Message) → length (truncate_rest max ms) ≤ suc max
truncate_rest-le max ms = ground (arith, length-drop (length ms - max) ms)

-- A truncated history has no more than two messages over the limit.
pub truncate_messages-le :
    (max : ℕ) (ms : List Message) → length (truncate_messages max ms) ≤ suc (suc max)
unfolding truncate_messages
truncate_messages-le max [] = ground (arith, truncate_rest-le max [])
truncate_messages-le max (m ∷ ms) =
    ground (arith, truncate_rest-le max ms, truncate_rest-le max (m ∷ ms))

le_or_lt : (a b : ℕ) → (a ≤ b) ⊎ (b < a)
le_or_lt a b = elim (Bool-cases (leb a b)) [
  | inl h ↦ inl (ground arith)
  | inr h ↦ inr (ground arith)
]

-- The last messages, at most so many.
abbrev pub recent : ℕ → List Message → List Message
recent n ms = drop (length ms - n) ms

drop-all : (n : ℕ) (xs : List Message) → n ≡ 0 → drop n xs ≡ xs
drop-all zero xs h = refl
drop-all (suc n) xs h = absurd (omega arith)

drop-suc : (n k : ℕ) (x : Message) (xs : List Message) → n ≡ suc k → drop n (x ∷ xs) ≡ drop k xs
drop-suc n k x xs h = ap (λ i. drop i (x ∷ xs)) h

fits_whole : (max : ℕ) (ms : List Message) → length ms ≤ max → truncate_rest max ms ≡ ms
fits_whole max ms h = ground arith

long_cut :
    (max : ℕ) (ms : List Message)
    → max < length ms
    → truncate_rest max ms ≡ placeholder ∷ recent max ms
long_cut max ms h = ground arith

recent-length : (max : ℕ) (ms : List Message) → max ≤ length ms → length (recent max ms) ≡ max
recent-length max ms h = omega (arith, length-drop (length ms - max) ms)

recent-cons :
    (max : ℕ) (m : Message) (ms : List Message)
    → max ≤ length ms
    → recent max (m ∷ ms) ≡ recent max ms
recent-cons max m ms h = drop-suc (suc (length ms) - max) (length ms - max) m ms (omega arith)

recent-same : (max : ℕ) (ms : List Message) → length ms ≡ max → recent max ms ≡ ms
recent-same max ms h = drop-all (length ms - max) ms (omega arith)

-- A history that was cut is the notice and as many messages as the limit.
cut-again :
    (max : ℕ) (ms : List Message)
    → length ms ≡ max
    → truncate_rest max (placeholder ∷ ms) ≡ placeholder ∷ ms
cut-again max ms h =
    long_cut max (placeholder ∷ ms) (omega arith)
    ∙ ap (◌∷◌ placeholder) (recent-cons max placeholder ms (omega arith) ∙ recent-same max ms h)

truncate_rest_lem :
    (max : ℕ) (ms : List Message)
    → (truncate_rest max (truncate_rest max ms) ≡ truncate_rest max ms)
      × (recent max (truncate_rest max ms) ≡ recent max ms)
truncate_rest_lem max ms = elim (le_or_lt (length ms) max) [
  | inl fits ↦
      let same = fits_whole max ms fits in (ap (truncate_rest max) same, ap (recent max) same)
  | inr long ↦
      let same = long_cut max ms long in
      let len = recent-length max ms (omega arith) in
      (
        ap (truncate_rest max) same ∙ cut-again max (recent max ms) len ∙ sym same,
        ap (recent max) same
            ∙ recent-cons max placeholder (recent max ms) (omega arith)
            ∙ recent-same max (recent max ms) len,
      )
]

-- A message before a history: the recent ones are those of the history, or all of it is.
recent-before :
    (max : ℕ) (m : Message) (ms : List Message)
    → recent max (m ∷ truncate_rest max ms) ≡ recent max (m ∷ ms)
recent-before max m ms = elim (le_or_lt (length ms) max) [
  | inl fits ↦ ap (λ t. recent max (m ∷ t)) (fits_whole max ms fits)
  | inr long ↦
      let len = recent-length max ms (omega arith) in
      ap (λ t. recent max (m ∷ t)) (long_cut max ms long)
      ∙ recent-cons max m (placeholder ∷ recent max ms) (omega arith)
      ∙ recent-cons max placeholder (recent max ms) (omega arith)
      ∙ recent-same max (recent max ms) len
      ∙ sym (recent-cons max m ms (omega arith))
]

nothing_cut : (max : ℕ) → truncate_messages max [] ≡ []
unfolding truncate_messages
nothing_cut max = fits_whole max [] (omega arith)

with_system :
    (max : ℕ) (m : Message) (ms : List Message)
    → is_system m.role ≡ true
    → truncate_messages max (m ∷ ms) ≡ m ∷ truncate_rest max ms
unfolding truncate_messages
with_system max m ms h = ground (arith, h)

without_system :
    (max : ℕ) (m : Message) (ms : List Message)
    → is_system m.role ≡ false
    → truncate_messages max (m ∷ ms) ≡ truncate_rest max (m ∷ ms)
unfolding truncate_messages
without_system max m ms h = ground (arith, h)

cut_without_system :
    (max : ℕ) (m : Message) (ms : List Message)
    → is_system m.role ≡ false
    → truncate_messages max (truncate_rest max (m ∷ ms))
      ≡ truncate_rest max (truncate_rest max (m ∷ ms))
cut_without_system max m ms h = elim (le_or_lt (length (m ∷ ms)) max) [
  | inl fits ↦
      let same = fits_whole max (m ∷ ms) fits in
      ap (truncate_messages max) same
      ∙ without_system max m ms h
      ∙ ap (truncate_rest max) (sym same)
  | inr long ↦
      let same = long_cut max (m ∷ ms) long in
      ap (truncate_messages max) same
      ∙ without_system max placeholder (recent max (m ∷ ms)) refl
      ∙ ap (truncate_rest max) (sym same)
]

-- A truncated history has no more than two messages over the limit, is not changed by truncating it
-- again, and ends in the messages, as many as the limit, in which the history ended.
pub truncate_messages_lem :
    (max : ℕ) (ms : List Message)
    → (length (truncate_messages max ms) ≤ suc (suc max))
      × (truncate_messages max (truncate_messages max ms) ≡ truncate_messages max ms)
      × (recent max (truncate_messages max ms) ≡ recent max ms)
truncate_messages_lem max [] =
    let same : truncate_messages max [] ≡ [] = nothing_cut max in
    (truncate_messages-le max [], ap (truncate_messages max) same, ap (recent max) same)
truncate_messages_lem max (m ∷ ms) = elim (Bool-cases (is_system m.role)) [
  | inl sys ↦
      let same = with_system max m ms sys in
      (
        truncate_messages-le max (m ∷ ms),
        ap (truncate_messages max) same
            ∙ with_system max m (truncate_rest max ms) sys
            ∙ ap (◌∷◌ m) (truncate_rest_lem max ms).0
            ∙ sym same,
        ap (recent max) same ∙ recent-before max m ms,
      )
  | inr plain ↦
      let same = without_system max m ms plain in
      let (twice, last) = truncate_rest_lem max (m ∷ ms) in
      (
        truncate_messages-le max (m ∷ ms),
        ap (truncate_messages max) same ∙ cut_without_system max m ms plain ∙ twice ∙ sym same,
        ap (recent max) same ∙ last,
      )
]
