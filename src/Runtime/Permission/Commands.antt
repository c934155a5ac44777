-- ===== src/Runtime/Permission/Commands.antt =====
-- crates/runtime/src/tools/permission.rs: which pattern decides the level of a command.
use ndc.Common.{
  ap, String, true, false, ◌≡◌, ◌↔◌, none, some, List, [], ◌∷◌, ◌++◌, arith, refl, All, Bool-cases,
  inl, inr,
}
use ndc.Common.Text.{contains}
use ndc.Runtime.Permission.{
  DangerLevel, DangerousPattern, PermissionSystem, first_match, full_command_of, check_command,
}

-- The pattern does not occur in the command.
abbrev pub IsAbsent : String → DangerousPattern → Type 0
IsAbsent command p = contains command p.pattern ≡ false

first_match-split :
    (command : String) (l : DangerLevel) (ps : List DangerousPattern)
    → first_match command ps ≡ some l
    → (before after : List DangerousPattern) × (p : DangerousPattern) × (ps ≡ before ++ p ∷ after)
      × All (IsAbsent command) before
      × (contains command p.pattern ≡ true)
      × (p.level ≡ l)
unfolding first_match
first_match-split command l [] h = absurd (ground arith)
first_match-split command l (p ∷ ps) h = elim (Bool-cases (contains command p.pattern)) [
  | inl y ↦ ([], ps, p, refl, tt, y, ground arith)
  | inr n ↦
      let (before, after, q, split, absent, y, e) = first_match-split command l ps (ground arith) in
      (p ∷ before, after, q, ap (◌∷◌ p) split, (n, absent), y, e)
]

first_match-none :
    (command : String) (ps : List DangerousPattern)
    → (first_match command ps ≡ none) ↔ All (IsAbsent command) ps
unfolding first_match
first_match-none command [] = ground arith
first_match-none command (p ∷ ps) = ground (arith, first_match-none command ps)

-- A command is without a level exactly if none of the patterns occurs in it, its arguments included;
-- one with a level has that of the first of the patterns that occurs in it.
check_command_lem :
    (command : String) (args : List String) (s : PermissionSystem)
    → ((check_command command args s ≡ none)
        ↔ All (IsAbsent (full_command_of command args)) s.config.dangerous_patterns)
      × ((l : DangerLevel)
          → check_command command args s ≡ some l
          → (before after : List DangerousPattern) × (p : DangerousPattern)
            × (s.config.dangerous_patterns ≡ before ++ p ∷ after)
            × All (IsAbsent (full_command_of command args)) before
            × (contains (full_command_of command args) p.pattern ≡ true)
            × (p.level ≡ l))
unfolding check_command
check_command_lem command args s = (
  first_match-none (full_command_of command args) s.config.dangerous_patterns,
  λ l h. first_match-split (full_command_of command args) l s.config.dangerous_patterns h,
)
