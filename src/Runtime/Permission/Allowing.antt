-- ===== src/Runtime/Permission/Allowing.antt =====
-- crates/runtime/src/tools/permission.rs: why a request is allowed, and that a confirmation counts.
use mathlib.Core.List.{Memᴰ}
use ndc.Common.{
  ◌≤◌, ◌<◌, String, Bool, true, false, ◌≡◌, ◌⊎◌, Option, some, List, [], ◌∷◌, arith, All,
  Bool-cases, Option-cases, inl, inr, ok,
}
use ndc.Core.Intent.{FilePath}
use ndc.Core.TaskState.{Timestamp}
use ndc.Runtime.Permission
use ndc.Runtime.Permission.{
  DangerLevel, danger, PermissionConfig, PermissionRequest, PermissionResponse, allow, confirmation,
  CacheEntry, PermissionSystem, PermissionError, requires_confirmation, assess_danger,
  should_auto_allow, should_confirm, is_young, ttl, get_cached_in, get_cached, cleanup_cache,
  cache_response, confirm_entry, confirm, hash_request, decide, check, le, ge, is_critical,
}
use ndc.Runtime.Permission.Confirming.{
  IsEarned, weaken-All, confirm_entry-All, get_cached_in-earned, decide-All, check-cases,
}

pub data Call : Type 0 where
  ask : Timestamp → Timestamp → Timestamp → PermissionRequest → Call
  answer : String → Bool → Call
  configure : PermissionConfig → Call

-- The hashes that were confirmed, added to those of before.
unfoldable pub confirmed_by : List Call → List String → List String
confirmed_by [] before = before
confirmed_by (answer hash true ∷ cs) before = confirmed_by cs (hash ∷ before)
confirmed_by (_ ∷ cs) before = confirmed_by cs before

module _ (sha256 : String → String) (debug_path : Option FilePath → String) where
  unfoldable pub apply : Call → PermissionSystem → PermissionSystem
  apply (ask looked created cleaned r) s = (check sha256 debug_path looked created cleaned r s).0
  apply (answer hash given) s = (confirm hash given s).0
  apply (configure config) s = record s { config = config }

  unfoldable pub run : List Call → PermissionSystem → PermissionSystem
  unfolding apply
  run [] s = s
  run (c ∷ cs) s = run cs (apply c s)

  ask-All :
      (looked created cleaned : Timestamp) (r : PermissionRequest) (confirmed : List String)
      (s : PermissionSystem)
      → All (IsEarned confirmed) s.cache
      → All (IsEarned confirmed) (check sha256 debug_path looked created cleaned r s).0.cache
  ask-All looked created cleaned r confirmed s a =
      elim (check-cases sha256 debug_path looked created cleaned r s) [
        | inl e ↦ rw e a
        | inr e ↦ rw e (decide-All sha256 debug_path created cleaned r confirmed s a)
      ]

  confirm-All :
      (hash : String) (confirmed : List String) (s : PermissionSystem)
      → All (IsEarned confirmed) s.cache
      → All (IsEarned (hash ∷ confirmed)) (confirm hash true s).0.cache
  unfolding confirm
  confirm-All hash confirmed s a = elim (Option-cases (confirm_entry hash s.cache)) [
    | inl n ↦ rw (n, confirm) (weaken-All hash confirmed s.cache a)
    | inr (es, h) ↦ rw (h, confirm) (confirm_entry-All hash confirmed s.cache es a h)
  ]

  run-All :
      (cs : List Call) (confirmed : List String) (s : PermissionSystem)
      → All (IsEarned confirmed) s.cache
      → All (IsEarned (confirmed_by cs confirmed)) (run cs s).cache
  unfolding run apply confirmed_by confirm
  run-All [] confirmed s a = a
  run-All (ask looked created cleaned r ∷ cs) confirmed s a =
      run-All cs confirmed _ (ask-All looked created cleaned r confirmed s a)
  run-All (answer hash true ∷ cs) confirmed s a =
      run-All cs (hash ∷ confirmed) _ (confirm-All hash confirmed s a)
  run-All (answer hash false ∷ cs) confirmed s a = run-All cs confirmed s a
  run-All (configure config ∷ cs) confirmed s a = run-All cs confirmed _ a

  -- Why `decide` allows.
  decide-allow :
      (created cleaned : Timestamp) (r : PermissionRequest) (s : PermissionSystem)
      → (decide sha256 debug_path created cleaned r s).1 ≡ ok allow
      → (danger (assess_danger r) < danger s.config.require_confirm_level)
        × (danger (assess_danger r) < danger DangerLevel.high)
  unfolding decide should_confirm ge is_critical
  decide-allow created cleaned r s h = ground arith

  -- The ways to be allowed.
  abbrev pub MayPass : PermissionRequest → PermissionSystem → List String → Type 0
  MayPass r s confirmed =
      (s.config.enabled ≡ false)
      ⊎ (danger (assess_danger r) ≤ danger s.config.auto_allow_level)
      ⊎ ((danger (assess_danger r) < danger s.config.require_confirm_level)
          × (danger (assess_danger r) < danger DangerLevel.high))
      ⊎ Memᴰ (hash_request sha256 debug_path r) confirmed

  check-MayPass :
      (looked created cleaned : Timestamp) (r : PermissionRequest) (s : PermissionSystem)
      (confirmed : List String)
      → All (IsEarned confirmed) s.cache
      → (check sha256 debug_path looked created cleaned r s).1 ≡ ok allow
      → MayPass r s confirmed
  unfolding check should_auto_allow le get_cached
  check-MayPass looked created cleaned r s confirmed a h = elim (Bool-cases s.config.enabled) [
    | inr off ↦ inl off
    | inl on ↦ elim (Bool-cases (should_auto_allow (assess_danger r) s)) [
      | inl auto ↦ inr (inl (ground arith))
      | inr n ↦ elim (Option-cases (get_cached (hash_request sha256 debug_path r) looked s)) [
        | inl k ↦ inr (inr (inl (decide-allow created cleaned r s (ground arith))))
        | inr (cached, k) ↦ inr (
            inr (
              inr (
                get_cached_in-earned confirmed (hash_request sha256 debug_path r) (ttl s) looked
                  s.cache a (ground arith))))
      ]
    ]
  ]

  -- After any calls on a new system, a request is allowed only if checks are disabled, or its danger
  -- level is within the automatically allowed ones, or the level is below both the one that is
  -- confirmed and High, or the hash of the request was confirmed by a call of confirm.
  pub check_allowed :
      (config : PermissionConfig) (cs : List Call) (looked created cleaned : Timestamp)
      (r : PermissionRequest)
      → (check sha256 debug_path looked created cleaned r (run cs (Permission.new (some config)))).1
        ≡ ok allow
      → MayPass r (run cs (Permission.new (some config))) (confirmed_by cs [])
  unfolding Permission.new
  check_allowed config cs looked created cleaned r h =
      check-MayPass looked created cleaned r (run cs (Permission.new (some config)))
        (confirmed_by cs []) (run-All cs [] (Permission.new (some config)) tt) h
