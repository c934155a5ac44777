-- ===== src/Core/GoldMemory/Facts.antt =====
-- crates/core/src/memory/invariant.rs: one invariant for each fact, which takes in what is reported.
use text.Mathlib.TextEquality.{eq_iff}
use ndc.Common.{
  ℕ, ◌+◌, String, Bool, true, ◌≡◌, refl, none, some, List, [], ◌∷◌, ◌||◌, if◌then◌else◌, length,
  push, member, retain, find, arith, All, Option-cases, Bool-cases, inl, inr,
}
use ndc.Common.Text.{str_eq}
use ndc.Core.Invariants.{InvariantId, GoldInvariant}
use ndc.Core.GoldMemory.{change_first, has_key, merge_texts}

-- How many invariants stand for a fact.
abbrev pub keyed : String → List GoldInvariant → ℕ
keyed key is = length (retain (has_key key) is)

pub keyed-push :
    (key : String) (is : List GoldInvariant) (i : GoldInvariant)
    → keyed key (push is i) ≡ keyed key is + (if has_key key i then 1 else 0)
keyed-push key [] i = ground arith
keyed-push key (j ∷ is) i = ground (arith, keyed-push key is i)

-- A change that leaves the keys alone.
pub keyed-change_first :
    (key : String) (p : GoldInvariant → Bool) (f : GoldInvariant → GoldInvariant)
    (is is' : List GoldInvariant) (id : InvariantId)
    → ((i : GoldInvariant) → (f i).fact_key ≡ i.fact_key)
    → change_first p f is ≡ some (is', id)
    → (keyed key is' ≡ keyed key is) × (length is' ≡ length is)
unfolding change_first
keyed-change_first key p f [] is' id keep h = absurd (ground arith)
keyed-change_first key p f (i ∷ is) is' id keep h = elim (Option-cases (change_first p f is)) [
  | inl n ↦ ground (arith, keep i)
  | inr (r, e) ↦ ground (arith, keep i, keyed-change_first key p f is r.0 r.1 keep e)
]

pub keyed-unchanged :
    (key : String) (f : GoldInvariant → GoldInvariant) (is : List GoldInvariant)
    → change_first (has_key key) f is ≡ none
    → keyed key is ≡ 0
unfolding change_first
keyed-unchanged key f [] h = refl
keyed-unchanged key f (i ∷ is) h = ground (arith, keyed-unchanged key f is)

pub keyed-changed :
    (key : String) (f : GoldInvariant → GoldInvariant) (is is' : List GoldInvariant)
    (id : InvariantId)
    → ((i : GoldInvariant) → (f i).fact_key ≡ i.fact_key)
    → change_first (has_key key) f is ≡ some (is', id)
    → (i : GoldInvariant) × (find (has_key key) is ≡ some i)
      × (find (has_key key) is' ≡ some (f i))
      × (i.id ≡ id)
unfolding change_first
keyed-changed key f [] is' id keep h = absurd (ground arith)
keyed-changed key f (i ∷ is) is' id keep h = elim (Bool-cases (has_key key i)) [
  | inl y ↦ (i, ground arith, ground (arith, keep i), ground arith)
  | inr n ↦ elim (Option-cases (change_first (has_key key) f is)) [
    | inl k ↦ absurd (ground arith)
    | inr (r, e) ↦
        let (x, a, b, c) = keyed-changed key f is r.0 r.1 keep e in
        (x, ground arith, ground arith, ground arith)
  ]
]

pub find-push_none :
    (key : String) (is : List GoldInvariant) (i : GoldInvariant)
    → keyed key is ≡ 0
    → has_key key i ≡ true
    → find (has_key key) (push is i) ≡ some i
find-push_none key [] i z y = ground arith
find-push_none key (j ∷ is) i z y = ground (arith, find-push_none key is i)

member-push :
    (old : List String) (t u : String)
    → member str_eq (push old t) u ≡ (member str_eq old u || str_eq t u)
member-push [] t u = ground arith
member-push (x ∷ old) t u = ground (arith, member-push old t u)

merge_texts_keeps :
    (old ts : List String) (u : String)
    → member str_eq old u ≡ true
    → member str_eq (merge_texts old ts) u ≡ true
unfolding merge_texts
merge_texts_keeps old [] u y = y
merge_texts_keeps old (t ∷ ts) u y =
    merge_texts_keeps (if member str_eq old t then old else push old t) ts u
      (ground (arith, member-push old t u))

pub merge_texts_adds :
    (old ts : List String) → All (λ t. member str_eq (merge_texts old ts) t ≡ true) ts
unfolding merge_texts
merge_texts_adds old [] = tt
merge_texts_adds old (t ∷ ts) = (
  merge_texts_keeps (if member str_eq old t then old else push old t) ts t
      (ground (arith, member-push old t t, eq_iff t t)),
  merge_texts_adds (if member str_eq old t then old else push old t) ts,
)
