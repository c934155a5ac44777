-- ===== src/Runtime/Permission/Confirming.antt =====
-- crates/runtime/src/tools/permission.rs: why a request is allowed, and that a confirmation counts.
use text.Mathlib.TextEquality.{eq_iff}
use mathlib.Core.List.{Memᴰ}
use mathlib.Core.Path.{subst}
use ndc.Common.{
  ℕ, String, Bool, true, false, ◌≡◌, ◌⊎◌, Option, some, List, [], ◌∷◌, arith, All, All-append,
  Option-cases, Bool-cases, inl, inr, retain, ◌&&◌,
}
use ndc.Common.Text.{str_eq}
use ndc.Core.Intent.{FilePath}
use ndc.Core.TaskState.{Timestamp}
use ndc.Runtime.Permission.{
  DangerLevel, PermissionRequest, allow, CacheEntry, PermissionSystem, assess_danger,
  should_confirm, is_young, ttl, get_cached_in, cleanup_cache, cache_response, confirm_entry,
  decide, check, ge,
}

-- A hash that was confirmed is among the given ones, for an entry that allows.
abbrev pub IsEarned : List String → CacheEntry → Type 0
IsEarned confirmed e = (e.response ≡ allow) → Memᴰ e.hash confirmed

retain-All :
    (P : CacheEntry → Type 0) (p : CacheEntry → Bool) (es : List CacheEntry)
    → All P es
    → All P (retain p es)
retain-All P p [] a = tt
retain-All P p (e ∷ es) a = elim (Bool-cases (p e)) [
  | inl y ↦ rw (y, retain, All) (a.0, retain-All P p es a.1)
  | inr n ↦ rw (n, retain, All) (retain-All P p es a.1)
]

-- An earned answer from the cache.
pub get_cached_in-earned :
    (confirmed : List String) (hash : String) (limit : ℕ) (now : Timestamp) (es : List CacheEntry)
    → All (IsEarned confirmed) es
    → get_cached_in hash limit now es ≡ some allow
    → Memᴰ hash confirmed
unfolding get_cached_in
get_cached_in-earned confirmed hash limit now [] a h = absurd (ground arith)
get_cached_in-earned confirmed hash limit now (e ∷ es) a h =
    elim (Bool-cases (str_eq e.hash hash && is_young false limit now e)) [
      | inl y ↦
          subst (λ (x : String). Memᴰ x confirmed) ((eq_iff e.hash hash).0 (ground arith))
            (a.0 (ground arith))
      | inr n ↦ get_cached_in-earned confirmed hash limit now es a.1 (ground arith)
    ]

pub weaken-All :
    (h : String) (confirmed : List String) (es : List CacheEntry)
    → All (IsEarned confirmed) es
    → All (IsEarned (h ∷ confirmed)) es
weaken-All h confirmed [] a = tt
weaken-All h confirmed (e ∷ es) a = (λ y. Memᴰ.tail (a.0 y), weaken-All h confirmed es a.1)

opened :
    (e : CacheEntry) (hash : String) (es es' : List CacheEntry)
    → str_eq e.hash hash ≡ true
    → confirm_entry hash (e ∷ es) ≡ some es'
    → record e { response = allow } ∷ es ≡ es'
unfolding confirm_entry
opened e hash es es' y h = ground arith

passed :
    (e : CacheEntry) (hash : String) (es rest es' : List CacheEntry)
    → str_eq e.hash hash ≡ false
    → confirm_entry hash es ≡ some rest
    → confirm_entry hash (e ∷ es) ≡ some es'
    → e ∷ rest ≡ es'
unfolding confirm_entry
passed e hash es rest es' n k h = ground arith

pub confirm_entry-All :
    (hash : String) (confirmed : List String) (es es' : List CacheEntry)
    → All (IsEarned confirmed) es
    → confirm_entry hash es ≡ some es'
    → All (IsEarned (hash ∷ confirmed)) es'
unfolding confirm_entry
confirm_entry-All hash confirmed [] es' a h = absurd (ground arith)
confirm_entry-All hash confirmed (e ∷ es) es' a h = elim (Bool-cases (str_eq e.hash hash)) [
  | inl y ↦
      subst (All (IsEarned (hash ∷ confirmed))) (opened e hash es es' y h)
        (λ _. Memᴰ.head ((eq_iff e.hash hash).0 y), weaken-All hash confirmed es a.1)
  | inr n ↦ elim (Option-cases (confirm_entry hash es)) [
    | inl none_left ↦ absurd (ground arith)
    | inr (rest, k) ↦
        subst (All (IsEarned (hash ∷ confirmed))) (passed e hash es rest es' n k h)
          (λ y. Memᴰ.tail (a.0 y), confirm_entry-All hash confirmed es rest a.1 k)
  ]
]

module _ (sha256 : String → String) (debug_path : Option FilePath → String) where
  pub decide-All :
      (created cleaned : Timestamp) (r : PermissionRequest) (confirmed : List String)
      (s : PermissionSystem)
      → All (IsEarned confirmed) s.cache
      → All (IsEarned confirmed) (decide sha256 debug_path created cleaned r s).0.cache
  unfolding decide cache_response cleanup_cache
  decide-All created cleaned r confirmed s a =
      elim (Bool-cases (should_confirm (assess_danger r) s)) [
        | inl y ↦
            rw (y, decide)
              (retain-All (IsEarned confirmed) (is_young true (ttl s) cleaned) _
                (All-append (IsEarned confirmed) s.cache _ a (λ never. absurd (ground arith), tt)))
        | inr n ↦ elim (Bool-cases (ge (assess_danger r) DangerLevel.high)) [
          | inl y ↦ rw (n, y, decide) a
          | inr m ↦ rw (n, m, decide) a
        ]
      ]

  pub check-cases :
      (looked created cleaned : Timestamp) (r : PermissionRequest) (s : PermissionSystem)
      → ((check sha256 debug_path looked created cleaned r s).0 ≡ s)
        ⊎ ((check sha256 debug_path looked created cleaned r s).0
            ≡ (decide sha256 debug_path created cleaned r s).0)
  unfolding check
  check-cases looked created cleaned r s = ground arith
