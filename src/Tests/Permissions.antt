-- ===== src/Tests/Permissions.antt =====
-- Requests for permission, with the text that is hashed standing for its hash.
use ndc.Common.{String, true, false, ◌≡◌, refl, Option, none, some, List, [], ◌∷◌, ok, err, arith}
use ndc.Common.Text.{contains, join}
use ndc.Core.Intent.{FilePath}
use ndc.Runtime.Permission
use ndc.Runtime.Permission.{
  DangerLevel, PermissionType, PermissionRequest, PermissionConfig, PermissionSystem,
  DangerousPattern, CacheEntry, PermissionError, requires_confirmation, denied, allow,
  default_config, check, check_command, confirm, hash_request, full_command_of, assess_danger,
  should_auto_allow, should_confirm, is_critical, ge, le, get_cached, get_cached_in, cache_response,
  cleanup_cache, confirm_entry,
}
use ndc.Runtime.Permission.Allowing.{
  Call, ask, answer, MayPass, run, apply, confirmed_by, check_allowed,
}
use ndc.Runtime.Permission.Confirmed.{confirm-check}

abbrev plain : String → String
plain s = s

abbrev show_path : Option FilePath → String
show_path p = "None"

abbrev push_request : DangerLevel → PermissionRequest
push_request level = record {
  permission_type = PermissionType.git;
  path = none;
  description = "push";
  danger_level = level;
  confirmed = false;
}

abbrev system : PermissionSystem
system = Permission.new (some default_config)

critical_is_denied :
    (check plain show_path 10 10 10 (push_request DangerLevel.critical) system).1
    ≡ err (denied "High-risk operation denied: push")
unfolding check Permission.new assess_danger should_auto_allow should_confirm get_cached ge
critical_is_denied = refl

abbrev dialogue : List Call
dialogue = ask 10 10 10 (push_request DangerLevel.high) ∷ answer "Git:None:push" true ∷ []

-- A confirmation of a request of level High serves for one of level Critical.
critical_passes :
    (check plain show_path 20 20 20
      (push_request DangerLevel.critical)
      (run plain show_path dialogue system)).1
    ≡ ok allow
unfolding run apply check confirm hash_request Permission.new assess_danger should_auto_allow
    should_confirm get_cached cache_response cleanup_cache confirm_entry ge
critical_passes = refl

check_allowed_example :
    MayPass plain show_path
      (push_request DangerLevel.critical)
      (run plain show_path dialogue system)
      (confirmed_by dialogue [])
check_allowed_example =
    check_allowed plain show_path default_config dialogue 20 20 20
      (push_request DangerLevel.critical) critical_passes

confirm-check_example :
    let (s1, asked) = check plain show_path 10 10 10 (push_request DangerLevel.high) system in
    let (s2, confirmed) =
      confirm (hash_request plain show_path (push_request DangerLevel.high)) true s1 in
    (asked ≡ err (requires_confirmation "Operation requires confirmation: push"))
    × (confirmed ≡ ok allow)
    × ((check plain show_path 20 20 20 (push_request DangerLevel.critical) s2).1 ≡ ok allow)
unfolding Permission.new assess_danger should_auto_allow should_confirm
confirm-check_example =
    confirm-check plain show_path 10 10 10 20 20 20 (push_request DangerLevel.high)
      DangerLevel.critical system refl refl refl tt (omega arith) (omega arith) (omega arith)
      (omega arith)

-- The more dangerous pattern stands first.
root_is_critical : check_command "rm" ("-rf" ∷ "/" ∷ []) system ≡ some DangerLevel.critical
unfolding check_command full_command_of join contains Permission.new
root_is_critical = refl
