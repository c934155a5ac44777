-- ===== src/Core/GoldMemory/Upserts.antt =====
-- crates/core/src/memory/invariant.rs: facts are kept once, and a report is taken in.
use ndc.Common.{
  ℕ, suc, if◌then◌else◌, ◌+◌, ◌≤◌, String, Bool, true, ◌≡◌, ◌⊎◌, refl, none, some, List, [], ◌∷◌,
  length, length-push, member, find, arith, All, Option-cases, inl, inr,
}
use text.Mathlib.TextEquality.{eq_iff}
use ndc.Common.Text.{str_eq}
use ndc.Core.TaskState.{Timestamp}
use ndc.Core.Invariants
use ndc.Core.Invariants.{InvariantId, InvariantPriority, GoldInvariant, rank, from_human_correction}
use ndc.Core.GoldMemory
use ndc.Core.GoldMemory.{
  GoldMemory, SystemFactInput, SystemFactUpsertStatus, created, updated, add_invariant,
  change_first, has_key, has_id, merge_texts, max_priority, mark_validated, mark_violated,
  create_from_human_correction, create_from_system_fact, merge, canonical_key, of_fact,
  upsert_system_fact,
}
use ndc.Common.Members.{All-member}
use ndc.Core.GoldMemory.Facts.{
  keyed, keyed-push, keyed-change_first, keyed-unchanged, keyed-changed, find-push_none,
  merge_texts_adds,
}

pub data Call : Type 0 where
  human : InvariantId → Timestamp → Timestamp → String → String → String → Call
  report : InvariantId → Timestamp → Timestamp → SystemFactInput → Call
  validated : Timestamp → InvariantId → Call
  violated : InvariantId → Call
  system_fact :
      InvariantId
      → Timestamp
      → Timestamp
      → String
      → String
      → String
      → InvariantPriority
      → List String
      → List String
      → Call
  -- `GoldMemory::add_invariant` itself.
  add : GoldInvariant → Call

-- The calls that add an invariant of a key without looking for one.
abbrev pub direct : String → List Call → ℕ
direct key [] = 0
direct key (add i ∷ cs) = let n = direct key cs in if has_key key i then suc n else n
direct key (_ ∷ cs) = direct key cs

add_invariant-keyed :
    (key : String) (i : GoldInvariant) (g : GoldMemory)
    → i.fact_key ≡ none
    → keyed key (add_invariant i g).invariants ≡ keyed key g.invariants
unfolding add_invariant
add_invariant-keyed key i g n = ground (arith, keyed-push key g.invariants i)

find-keyed :
    (key : String) (is : List GoldInvariant) (i : GoldInvariant)
    → find (has_key key) is ≡ some i
    → 1 ≤ keyed key is
find-keyed key [] i h = absurd (ground arith)
find-keyed key (j ∷ is) i h = ground (arith, find-keyed key is i)

mark-keyed :
    (key : String) (f : GoldInvariant → GoldInvariant) (id : InvariantId) (is : List GoldInvariant)
    (r : List GoldInvariant × InvariantId)
    → ((i : GoldInvariant) → (f i).fact_key ≡ i.fact_key)
    → change_first (has_id id) f is ≡ some r
    → keyed key r.0 ≡ keyed key is
mark-keyed key f id is r keep h = (keyed-change_first key (has_id id) f is r.0 r.1 keep h).0

direct-cons :
    (key : String) (c : Call) (cs : List Call)
    → direct key (c ∷ cs) ≡ direct key (c ∷ []) + direct key cs
direct-cons key (add i) cs = ground arith
direct-cons key (human id v c corrector_id original_error fix_description) cs = omega arith
direct-cons key (report id v c fact) cs = omega arith
direct-cons key (validated now id) cs = omega arith
direct-cons key (violated id) cs = omega arith
direct-cons key (system_fact id v c rule description scope priority tags evidence) cs = omega arith

module _ (trim to_ascii_lowercase : String → String) (is_token : String → String → Bool) where
  unfoldable pub apply : Call → GoldMemory → GoldMemory
  apply (human id v c corrector_id original_error fix_description) g =
      create_from_human_correction id v c corrector_id original_error fix_description g
  apply (report id v c fact) g =
      (upsert_system_fact trim to_ascii_lowercase is_token id v c fact g).0
  apply (validated now id) g = (mark_validated now id g).0
  apply (violated id) g = (mark_violated id g).0
  apply (system_fact id v c rule description scope priority tags evidence) g =
      (create_from_system_fact trim to_ascii_lowercase is_token id v c rule description scope
        priority tags evidence g).0
  apply (add i) g = add_invariant i g

  unfoldable pub run : List Call → GoldMemory → GoldMemory
  unfolding apply
  run [] g = g
  run (c ∷ cs) g = run cs (apply c g)

  report-keyed :
      (key : String) (n : ℕ) (id : InvariantId) (v c : Timestamp) (fact : SystemFactInput)
      (g : GoldMemory)
      → keyed key g.invariants ≤ suc n
      → keyed key (upsert_system_fact trim to_ascii_lowercase is_token id v c fact g).0.invariants
        ≤ suc n
  unfolding upsert_system_fact add_invariant merge
  report-keyed key n id v c fact g le =
      let k = canonical_key trim to_ascii_lowercase is_token fact in
      let f = merge trim to_ascii_lowercase is_token fact in
      elim (Option-cases (change_first (has_key k) f g.invariants)) [
        | inl z ↦ ground (
          arith,
          keyed-unchanged k f g.invariants z,
          eq_iff k key,
          keyed-push key g.invariants (of_fact trim to_ascii_lowercase is_token id v c fact),
        )
        | inr (r, e) ↦
            ground (arith, keyed-change_first key (has_key k) f g.invariants r.0 r.1 (λ i. refl) e)
      ]

  apply-keyed :
      (key : String) (n : ℕ) (c : Call) (g : GoldMemory)
      → keyed key g.invariants ≤ suc n
      → keyed key (apply c g).invariants ≤ suc n + direct key (c ∷ [])
  unfolding apply create_from_human_correction from_human_correction add_invariant mark_validated
      mark_violated Invariants.mark_validated Invariants.mark_violated create_from_system_fact
  apply-keyed key n (human id v c corrector_id original_error fix_description) g le =
      omega (arith, add_invariant-keyed key _ g refl)
  apply-keyed key n (report id v c fact) g le = omega (arith, report-keyed key n id v c fact g le)
  apply-keyed key n (system_fact id v c rule description scope priority tags evidence) g le =
      omega (arith, report-keyed key n id v c _ g le)
  apply-keyed key n (add i) g le = ground (arith, keyed-push key g.invariants i)
  apply-keyed key n (validated now id) g le =
      elim (Option-cases (change_first (has_id id) (Invariants.mark_validated now) g.invariants)) [
        | inl z ↦ ground arith
        | inr (r, e) ↦
            ground (
              arith,
              mark-keyed key (Invariants.mark_validated now) id g.invariants r (λ i. refl) e,
            )
      ]
  apply-keyed key n (violated id) g le =
      elim (Option-cases (change_first (has_id id) Invariants.mark_violated g.invariants)) [
        | inl z ↦ ground arith
        | inr (r, e) ↦
            ground (arith, mark-keyed key Invariants.mark_violated id g.invariants r (λ i. refl) e)
      ]

  run-keyed :
      (key : String) (n : ℕ) (cs : List Call) (g : GoldMemory)
      → keyed key g.invariants ≤ suc n
      → keyed key (run cs g).invariants ≤ suc n + direct key cs
  unfolding run
  run-keyed key n [] g le = omega arith
  run-keyed key n (c ∷ cs) g le =
      let rest =
        run-keyed key (n + direct key (c ∷ [])) cs (apply c g)
          (omega (arith, apply-keyed key n c g le)) in
      omega (arith, rest, direct-cons key c cs)

  -- After any calls of the service's methods and of add_invariant on a new memory, a fact has at most
  -- one invariant beside those that add_invariant was given with its key: reports and corrections never
  -- add a second one. Changes through get_mut are not among the calls.
  pub facts_once :
      (key : String) (cs : List Call)
      → keyed key (run cs GoldMemory.new).invariants ≤ 1 + direct key cs
  unfolding GoldMemory.new
  facts_once key cs = run-keyed key 0 cs GoldMemory.new (omega arith)

  -- An invariant holds what a report says: its rule and description, at least its priority, its tags.
  abbrev pub Tells : SystemFactInput → GoldInvariant → Type 0
  Tells fact i =
      (i.rule ≡ fact.rule)
      × (i.description ≡ fact.description)
      × (rank fact.priority ≤ rank i.priority)
      × All (λ t. member str_eq i.tags t ≡ true) fact.tags

  merge-Tells :
      (fact : SystemFactInput) (i : GoldInvariant)
      → Tells fact (merge trim to_ascii_lowercase is_token fact i)
  unfolding merge
  merge-Tells fact i = (refl, refl, ground arith, merge_texts_adds i.tags fact.tags)

  -- A report of a fact changes an invariant in place if there is one for its key, and adds one if there
  -- is none, as the status of the answer says. The first invariant for the key then has the id of the
  -- answer, the rule and the description of the report, at least its priority, and all its tags.
  pub upsert_system_fact_lem :
      (id : InvariantId) (v c : Timestamp) (fact : SystemFactInput) (g : GoldMemory)
      → let key = canonical_key trim to_ascii_lowercase is_token fact in
        let (g', r) = upsert_system_fact trim to_ascii_lowercase is_token id v c fact g in
        (((r.status ≡ created)
            × (keyed key g.invariants ≡ 0)
            × (length g'.invariants ≡ length g.invariants + 1))
          ⊎ ((r.status ≡ updated)
              × (1 ≤ keyed key g.invariants)
              × (keyed key g'.invariants ≡ keyed key g.invariants)
              × (length g'.invariants ≡ length g.invariants)))
        × ((i : GoldInvariant) × (find (has_key key) g'.invariants ≡ some i)
            × (i.id ≡ r.id)
            × Tells fact i)
  unfolding upsert_system_fact add_invariant merge
  upsert_system_fact_lem id v c fact g =
      let k = canonical_key trim to_ascii_lowercase is_token fact in
      let f = merge trim to_ascii_lowercase is_token fact in
      let new = of_fact trim to_ascii_lowercase is_token id v c fact in
      elim (Option-cases (change_first (has_key k) f g.invariants)) [
        | inl n ↦
            let z = keyed-unchanged k f g.invariants n in
            rw (n, upsert_system_fact)
              (
                inl (refl, z, length-push g.invariants new),
                (
                  new,
                  find-push_none k g.invariants new z ((eq_iff k k).1 refl),
                  refl,
                  (refl, refl, omega arith, All-member fact.tags),
                ),
              )
        | inr (r, e) ↦
            let (i, found, now, same) = keyed-changed k f g.invariants r.0 r.1 (λ x. refl) e in
            let (kept, long) =
              keyed-change_first k (has_key k) f g.invariants r.0 r.1 (λ x. refl) e in
            rw (e, upsert_system_fact)
              (
                inr (refl, find-keyed k g.invariants i found, kept, long),
                (f i, now, same, merge-Tells fact i),
              )
      ]
