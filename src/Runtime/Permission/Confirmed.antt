-- ===== src/Runtime/Permission/Confirmed.antt =====
-- crates/runtime/src/tools/permission.rs: that a confirmation counts.
use text.Mathlib.TextEquality.{eq_iff}
use ndc.Common.{
  ℕ, ◌+◌, ◌≤◌, ◌<◌, String, Bool, true, false, ◌≡◌, ◌≢◌, Option, none, some, List, [], ◌∷◌, arith,
  refl, All, Bool-cases, inl, inr, push, retain, ok, err,
}
use Prim.Native.String.{◌++◌ as text_append}
use ndc.Core.Intent.{FilePath}
use ndc.Core.TaskState.{Timestamp}
use ndc.Runtime.Permission.{
  DangerLevel, PermissionRequest, allow, confirmation, CacheEntry, PermissionSystem,
  requires_confirmation, assess_danger, should_auto_allow, should_confirm, is_young, ttl,
  get_cached_in, get_cached, cleanup_cache, cache_response, confirm_entry, confirm, hash_request,
  decide, check,
}

-- No entry has the hash.
abbrev IsFresh : String → List CacheEntry → Type 0
IsFresh hash = All (λ (e : CacheEntry). e.hash ≢ hash)

IsFresh-uncached :
    (hash : String) (limit : ℕ) (now : Timestamp) (es : List CacheEntry)
    → IsFresh hash es
    → get_cached_in hash limit now es ≡ none
unfolding get_cached_in
IsFresh-uncached hash limit now [] fresh = refl
IsFresh-uncached hash limit now (e ∷ es) fresh =
    ground (arith, eq_iff e.hash hash, IsFresh-uncached hash limit now es fresh.1)

retain-push :
    (p : CacheEntry → Bool) (es : List CacheEntry) (e : CacheEntry)
    → p e ≡ true
    → retain p (push es e) ≡ push (retain p es) e
retain-push p [] e y = ground arith
retain-push p (x ∷ es) e y = ground (arith, retain-push p es e y)

retain-IsFresh :
    (hash : String) (p : CacheEntry → Bool) (es : List CacheEntry)
    → IsFresh hash es
    → IsFresh hash (retain p es)
retain-IsFresh hash p [] fresh = tt
retain-IsFresh hash p (e ∷ es) fresh = elim (Bool-cases (p e)) [
  | inl y ↦ rw (y, retain, All) (fresh.0, retain-IsFresh hash p es fresh.1)
  | inr n ↦ rw (n, retain, All) (retain-IsFresh hash p es fresh.1)
]

confirm_entry-push :
    (es : List CacheEntry) (e : CacheEntry)
    → IsFresh e.hash es
    → confirm_entry e.hash (push es e) ≡ some (push es (record e { response = allow }))
unfolding confirm_entry
confirm_entry-push [] e fresh = ground (arith, eq_iff e.hash e.hash)
confirm_entry-push (x ∷ es) e fresh =
    ground (arith, eq_iff x.hash e.hash, confirm_entry-push es e fresh.1)

get_cached_in-push :
    (hash : String) (limit : ℕ) (now : Timestamp) (es : List CacheEntry) (e : CacheEntry)
    → IsFresh hash es
    → e.hash ≡ hash
    → is_young false limit now e ≡ true
    → get_cached_in hash limit now (push es e) ≡ some e.response
unfolding get_cached_in
get_cached_in-push hash limit now [] e fresh same young = ground (arith, eq_iff e.hash hash)
get_cached_in-push hash limit now (x ∷ es) e fresh same young =
    ground (arith, eq_iff x.hash hash, get_cached_in-push hash limit now es e fresh.1 same young)

module _ (sha256 : String → String) (debug_path : Option FilePath → String) where
  abbrev question : Timestamp → PermissionRequest → CacheEntry
  question now r = record {
    hash = hash_request sha256 debug_path r;
    response = confirmation (hash_request sha256 debug_path r);
    created_at = now;
  }

  check-asks :
      (t0 t1 t2 : Timestamp) (r : PermissionRequest) (s : PermissionSystem)
      → s.config.enabled ≡ true
      → should_auto_allow (assess_danger r) s ≡ false
      → should_confirm (assess_danger r) s ≡ true
      → IsFresh (hash_request sha256 debug_path r) s.cache
      → t1 ≤ t2
      → t2 < t1 + ttl s
      → check sha256 debug_path t0 t1 t2 r s ≡ (
        record s { cache = push (retain (is_young true (ttl s) t2) s.cache) (question t1 r) },
        err (requires_confirmation (text_append "Operation requires confirmation: " r.description)),
      )
  unfolding check decide cache_response cleanup_cache get_cached
  check-asks t0 t1 t2 r s on loud must fresh a b = ground (
    arith,
    IsFresh-uncached (hash_request sha256 debug_path r) (ttl s) t0 s.cache fresh,
    retain-push (is_young true (ttl s) t2) s.cache (question t1 r) (ground arith),
  )

  confirm-answers :
      (t1 : Timestamp) (r : PermissionRequest) (es : List CacheEntry) (s : PermissionSystem)
      → IsFresh (hash_request sha256 debug_path r) es
      → confirm
          (hash_request sha256 debug_path r)
          true
          (record s { cache = push es (question t1 r) })
        ≡ (record s { cache = push es (record (question t1 r) { response = allow }) }, ok allow)
  unfolding confirm
  confirm-answers t1 r es s fresh = ground (arith, confirm_entry-push es (question t1 r) fresh)

  check-passes :
      (t1 t3 t4 t5 : Timestamp) (r : PermissionRequest) (es : List CacheEntry)
      (s : PermissionSystem)
      → IsFresh (hash_request sha256 debug_path r) es
      → t1 ≤ t3
      → t3 < t1 + ttl s
      → (check sha256 debug_path t3 t4 t5 r
          (record s { cache = push es (record (question t1 r) { response = allow }) })).1
        ≡ ok allow
  unfolding check get_cached
  check-passes t1 t3 t4 t5 r es s fresh c d = ground (
    arith,
    get_cached_in-push (hash_request sha256 debug_path r) (ttl s) t3 es
        (record (question t1 r) { response = allow }) fresh refl (ground arith),
  )

  -- With checks enabled, a request whose level must be confirmed and is not allowed automatically, and
  -- whose hash no entry of the cache has, is first refused with a question. Once its hash is confirmed
  -- it is allowed while the entry made for the question is younger than the time to live, the clock
  -- not being set back: whatever danger level the same request then names, which the hash leaves out.
  pub confirm-check :
      (t0 t1 t2 t3 t4 t5 : Timestamp) (r : PermissionRequest) (level : DangerLevel)
      (s : PermissionSystem)
      → s.config.enabled ≡ true
      → should_auto_allow (assess_danger r) s ≡ false
      → should_confirm (assess_danger r) s ≡ true
      → IsFresh (hash_request sha256 debug_path r) s.cache
      → t1 ≤ t2
      → t2 < t1 + ttl s
      → t1 ≤ t3
      → t3 < t1 + ttl s
      → let (s1, asked) = check sha256 debug_path t0 t1 t2 r s in
        let (s2, confirmed) = confirm (hash_request sha256 debug_path r) true s1 in
        (asked
          ≡ err (
              requires_confirmation
                (text_append "Operation requires confirmation: " r.description)))
        × (confirmed ≡ ok allow)
        × ((check sha256 debug_path t3 t4 t5 (record r { danger_level = level }) s2).1 ≡ ok allow)
  unfolding hash_request
  confirm-check t0 t1 t2 t3 t4 t5 r level s on loud must fresh a b c d =
      let kept = retain (is_young true (ttl s) t2) s.cache in
      let still =
        retain-IsFresh (hash_request sha256 debug_path r) (is_young true (ttl s) t2) s.cache
          fresh in
      rw (check-asks t0 t1 t2 r s on loud must fresh a b, confirm-answers t1 r kept s still)
        (refl, refl, check-passes t1 t3 t4 t5 (record r { danger_level = level }) kept s still c d)
