-- ===== src/Tests/Facts.antt =====
-- Facts that a gold memory is told.
use ndc.Common.{
  ◌+◌, ◌≤◌, String, Bool, true, ◌≡◌, ◌↔◌, ◌⊎◌, refl, none, some, List, [], ◌∷◌, length, find, map,
}
use mathlib.Core.List.{Memᴰ}
use ndc.Common.Maps.{get, insert}
use ndc.Common.Text.{str_eq}
use ndc.Core.Invariants
use ndc.Core.Invariants.{
  InvariantPriority, low, medium, high, critical, rank, GoldInvariant, from_human_correction,
  global,
}
use ndc.Core.GoldMemory
use ndc.Core.GoldMemory.{
  GoldMemory, invariant_priority_eq, SystemFactInput, SystemFactUpsertStatus, created, updated,
  upsert_system_fact, create_from_system_fact, canonical_key, has_key, change_first, add_invariant,
  add_to_index, merge, merge_texts, mark_violated, mark_validated, create_from_human_correction,
}
use ndc.Core.GoldMemory.Facts.{keyed}
use ndc.Core.GoldMemory.Upserts.{
  Call, direct, human, report, validated, violated, run, apply, facts_once, upsert_system_fact_lem,
  Tells,
}
use ndc.Core.GoldMemory.Query.{InvariantQuery, query, passes, Satisfies, query_iff}

-- Keys are given trimmed and in lower case, and no source is a joined one.
abbrev plain : String → String
plain s = s

abbrev same : String → String → Bool
same s t = str_eq s t

abbrev fact : InvariantPriority → List String → SystemFactInput
fact priority tags = record {
  dedupe_key = "api:foo";
  rule = "Keep foo";
  description = "foo is public";
  scope_pattern = "foo";
  priority = priority;
  tags = tags;
  evidence = [];
  source = "discovery";
}

abbrev calls : List Call
calls =
    report "i" 1 1 (fact medium ("api" ∷ []))
    ∷ human "h" 2 2 "u" "crash" "check"
    ∷ violated "i"
    ∷ report "j" 3 3 (fact low ("api" ∷ "foo" ∷ []))
    ∷ validated 4 "h"
    ∷ []

abbrev memory : GoldMemory
memory = run plain plain same calls GoldMemory.new

-- What was reported twice is kept once, with the higher priority and the tags of both.
kept_once : map (λ (i : GoldInvariant). i.id) memory.invariants ≡ "i" ∷ "h" ∷ []
unfolding run apply upsert_system_fact add_invariant change_first merge merge_texts mark_violated
    mark_validated Invariants.mark_violated Invariants.mark_validated create_from_human_correction
    from_human_correction GoldMemory.new
kept_once = refl

-- The index by priority still has the violated invariant under the priority that it was added with.
index_is_stale :
    (get medium memory.priority_index ≡ some (0 ∷ []))
    × (map (λ (i : GoldInvariant). i.priority) memory.invariants ≡ critical ∷ high ∷ [])
unfolding run apply upsert_system_fact add_invariant add_to_index change_first merge merge_texts
    mark_violated mark_validated Invariants.mark_violated Invariants.mark_validated
    create_from_human_correction from_human_correction GoldMemory.new get insert
index_is_stale = (refl, refl)

legacy_key :
    map
      (λ (i : GoldInvariant). i.fact_key)
      (create_from_system_fact plain plain same "k" 5 5 "r" "d" "s" low [] []
        GoldMemory.new).0.invariants
    ≡ some "legacy:s:r" ∷ []
unfolding create_from_system_fact upsert_system_fact add_invariant change_first GoldMemory.new
legacy_key = refl

facts_once_example : keyed "api:foo" memory.invariants ≤ 1 + direct "api:foo" calls
facts_once_example = facts_once plain plain same "api:foo" calls

upsert_system_fact_lem_example :
    let key = canonical_key plain plain same (fact high []) in
    let (g', r) = upsert_system_fact plain plain same "k" 5 5 (fact high []) memory in
    (((r.status ≡ created)
        × (keyed key memory.invariants ≡ 0)
        × (length g'.invariants ≡ length memory.invariants + 1))
      ⊎ ((r.status ≡ updated)
          × (1 ≤ keyed key memory.invariants)
          × (keyed key g'.invariants ≡ keyed key memory.invariants)
          × (length g'.invariants ≡ length memory.invariants)))
    × ((i : GoldInvariant) × (find (has_key key) g'.invariants ≡ some i)
        × (i.id ≡ r.id)
        × Tells plain plain same (fact high []) i)
upsert_system_fact_lem_example =
    upsert_system_fact_lem plain plain same "k" 5 5 (fact high []) memory

abbrev everything : InvariantQuery
everything = record {
  priority = none;
  scope_type = some global;
  source_kind = none;
  tags = [];
  only_active = true;
  min_validation_count = 1;
}

human_found : map (λ (i : GoldInvariant). i.id) (query everything memory) ≡ "h" ∷ []
unfolding query passes run apply upsert_system_fact add_invariant change_first merge merge_texts
    mark_violated mark_validated Invariants.mark_violated Invariants.mark_validated
    create_from_human_correction from_human_correction GoldMemory.new
human_found = refl

abbrev correction : GoldInvariant
correction = from_human_correction "h" 2 2 "u" "crash" "check" "r" "d"

query_iff_example :
    Memᴰ correction (query everything memory)
    ↔ (Memᴰ correction memory.invariants × Satisfies everything correction)
query_iff_example = query_iff everything memory correction
