-- ===== src/Tests/Lineages.antt =====
-- The lineages of a few tasks.
use ndc.Common.{
  String, true, false, ◌≡◌, ◌≢◌, refl, none, some, List, [], ◌∷◌, err, is_ok, arith, All, push,
}
use ndc.Common.Option
use ndc.Core.Lineage
use ndc.Core.Lineage.{
  TaskLineage, LineageService, LineageConfig, InheritedInvariant, ArchivedContext, default_config,
  new_lineage, add_child, create_lineage, depth_exceeded, get_lineage, update_first,
  add_inherited_invariant, get_inherited_invariants, archive_context, summary,
}
use ndc.Core.Lineage.Growth.{create_lineage_lem, IsFresh}
use ndc.Core.Lineage.Depth.{Call, create, add, archive, apply, run, IsPlaced, lineages-IsPlaced}
use ndc.Core.Lineage.Keeping.{IsLater, run-IsLater}

abbrev rule : InheritedInvariant
rule = record {
  source_task_id = "a";
  rule = "No unwrap";
  reason = "It panicked";
  validation_count = 3;
  last_validated = 5;
}

abbrev story : ArchivedContext
story = record {
  source_task_id = "a";
  accomplishment_summary = "Done";
  key_files = [];
  api_surface = [];
  decisions = [];
  failures = [];
  archived_at = 9;
}

abbrev start : LineageService
start = Lineage.new (some default_config)

abbrev family : List Call
family =
    create 1 "a" none
    ∷ create 2 "b" (some "a")
    ∷ add "a" rule
    ∷ create 3 "c" (some "b")
    ∷ archive "a" story
    ∷ create 4 "d" (some "c")
    ∷ create 5 "e" (some "d")
    ∷ []

abbrev one : LineageService
one = record start { lineage_store = new_lineage 1 "a" none 0 ∷ [] }

-- The default bound of 3 refuses the fifth generation.
too_deep : (create_lineage 5 "e" (some "d") (run family start)).1 ≡ err (depth_exceeded 4 3)
unfolding run apply create_lineage update_first add_inherited_invariant archive_context Lineage.new
too_deep = refl

family_size : (summary (run family start)).total_lineages ≡ 4
unfolding summary run apply create_lineage update_first add_inherited_invariant archive_context
    Lineage.new
family_size = refl

-- A child is made without the invariants of its parent.
nothing_inherited : get_inherited_invariants "c" (run family start) ≡ []
unfolding get_inherited_invariants run apply create_lineage update_first add_inherited_invariant
    archive_context Lineage.new
nothing_inherited = refl

-- A parent that is unknown counts as one of depth 0.
orphan :
    get_lineage "x" (create_lineage 1 "x" (some "gone") start).0
    ≡ some (new_lineage 1 "x" (some "gone") 1)
unfolding get_lineage create_lineage update_first Lineage.new
orphan = refl

create_lineage_lem_example :
    let (s', r) = create_lineage 2 "b" (some "a") one in
    (is_ok r ≡ false → s' ≡ one)
    × (is_ok r ≡ true
        → ((l : TaskLineage) × (get_lineage "b" s' ≡ some l) × IsFresh 2 "b" (some "a") one l)
          × ((u : String)
              → u ≢ "b"
              → (some "a" ≢ some u → get_lineage u s' ≡ get_lineage u one)
                × (some "a" ≡ some u
                    → get_lineage u s'
                      ≡ Option.map
                          (λ (l : TaskLineage). record l { children = push l.children "b" })
                          (get_lineage u one))))
unfolding get_lineage Lineage.new
create_lineage_lem_example = create_lineage_lem 2 "b" (some "a") one refl

lineages-IsPlaced_example : All (IsPlaced 3) (run family start).lineage_store
lineages-IsPlaced_example = lineages-IsPlaced default_config family (omega arith) (omega arith)

run-IsLater_example :
    (l' : TaskLineage) × (get_lineage "a" (run family one) ≡ some l')
    × IsLater (new_lineage 1 "a" none 0) l'
unfolding get_lineage Lineage.new
run-IsLater_example = run-IsLater family one "a" (new_lineage 1 "a" none 0) refl
