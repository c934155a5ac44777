-- ===== src/Runtime/Permission.antt =====
-- crates/runtime/src/tools/permission.rs: `PermissionSystem`. Times are in nanoseconds; a loop that
-- reads the clock for every entry has one reading. SHA-256 and the `{:?}` of a path are arguments.
pub mod Confirming
pub mod Commands
pub mod Allowing
pub mod Confirmed
use Prim.Native.String.{◌++◌}
use ndc.Common.{
  ℕ, ◌+◌, ◌-◌, ◌*◌, String, Bool, true, false, not, ◌&&◌, Option, none, some, List, [], ◌∷◌, Result,
  ok, err, if◌then◌else◌, ltb, leb, ◌==◌, push, retain,
}
use ndc.Common.Option
use ndc.Common.Text.{str_eq, contains, join}
use ndc.Core.Intent.{FilePath}
use ndc.Core.TaskState.{Timestamp}

pub data PermissionError : Type 0 where
  denied : String → PermissionError
  requires_confirmation : String → PermissionError
  invalid_scope : String → PermissionError

pub data DangerLevel : Type 0 where
  safe low medium high critical : DangerLevel

-- `as u8`.
abbrev pub danger : DangerLevel → ℕ
danger safe = 0
danger low = 1
danger medium = 2
danger high = 3
danger critical = 4

unfoldable pub le : DangerLevel → DangerLevel → Bool
le a b = leb (danger a) (danger b)

unfoldable pub ge : DangerLevel → DangerLevel → Bool
ge a b = leb (danger b) (danger a)

unfoldable pub is_critical : DangerLevel → Bool
is_critical a = danger a == danger critical

pub data PermissionType : Type 0 where
  read write delete execute network git : PermissionType

pub record PermissionRequest : Type 0 where
  pub permission_type : PermissionType
  pub path : Option FilePath
  pub description : String
  pub danger_level : DangerLevel
  pub confirmed : Bool

pub data PermissionResponse : Type 0 where
  allow deny : PermissionResponse
  confirmation : String → PermissionResponse

pub record DangerousPattern : Type 0 where
  pub pattern : String
  pub level : DangerLevel
  pub description : String

pub record PermissionConfig : Type 0 where
  pub enabled : Bool
  pub auto_allow_level : DangerLevel
  pub require_confirm_level : DangerLevel
  pub dangerous_patterns : List DangerousPattern
  pub cache_ttl_seconds : ℕ  -- u64

pub record CacheEntry : Type 0 where
  pub hash : String
  pub response : PermissionResponse
  pub created_at : Timestamp

pub record PermissionSystem : Type 0 where
  pub config : PermissionConfig
  pub cache : List CacheEntry

abbrev danger_of : String → DangerLevel → String → DangerousPattern
danger_of pattern level description = record {
  pattern = pattern;
  level = level;
  description = description;
}

abbrev pub default_dangerous_patterns : List DangerousPattern
default_dangerous_patterns =
    danger_of "rm -rf /" critical "Delete root directory"
    ∷ danger_of "rm -rf /usr" critical "Delete system directory"
    ∷ danger_of "mkfs" critical "Format filesystem"
    ∷ danger_of "rm -rf" high "Recursive delete"
    ∷ danger_of "chmod -R 777" high "World writable permissions"
    ∷ danger_of "chown -R" high "Recursive ownership change"
    ∷ danger_of "> /dev/sda" high "Write to disk device"
    ∷ danger_of "dd if=/dev/zero" high "Disk wipe"
    ∷ danger_of "kill -9" medium "Force kill process"
    ∷ danger_of "pkill" medium "Kill processes by name"
    ∷ danger_of "killall" medium "Kill all processes"
    ∷ danger_of "reboot" medium "Reboot system"
    ∷ danger_of "shutdown" medium "Shutdown system"
    ∷ danger_of "curl " low "Network request"
    ∷ danger_of "wget " low "Download file"
    ∷ []

abbrev pub default_config : PermissionConfig
default_config = record {
  enabled = true;
  auto_allow_level = low;
  require_confirm_level = high;
  dangerous_patterns = default_dangerous_patterns;
  cache_ttl_seconds = 300;
}

unfoldable pub new : Option PermissionConfig → PermissionSystem
new config = record { config = Option.get_or config default_config; cache = [] }

type_danger : PermissionType → DangerLevel
type_danger read = safe
type_danger write = low
type_danger delete = medium
type_danger execute = medium
type_danger network = low
type_danger git = low

unfoldable pub assess_danger : PermissionRequest → DangerLevel
unfolding type_danger
assess_danger r =
    if not (danger r.danger_level == danger safe)
    then r.danger_level
    else type_danger r.permission_type

unfoldable pub should_auto_allow : DangerLevel → PermissionSystem → Bool
unfolding le
should_auto_allow level s = le level s.config.auto_allow_level

unfoldable pub should_confirm : DangerLevel → PermissionSystem → Bool
unfolding ge is_critical
should_confirm level s = ge level s.config.require_confirm_level && not (is_critical level)

abbrev matches : String → DangerousPattern → Bool
matches full_command p = contains full_command p.pattern

-- The loop of `check_command`.
first_match : String → List DangerousPattern → Option DangerLevel
unfolding contains
first_match full_command [] = none
first_match full_command (p ∷ ps) =
    let later = first_match full_command ps in
    if matches full_command p then some p.level else later

unfoldable pub full_command_of : String → List String → String
unfolding join
full_command_of command [] = command
full_command_of command args = command ++ " " ++ join " " args

unfoldable pub check_command : String → List String → PermissionSystem → Option DangerLevel
unfolding first_match full_command_of
check_command command args s =
    first_match (full_command_of command args) s.config.dangerous_patterns

-- `{:?}` of a permission type.
abbrev type_name : PermissionType → String
type_name read = "Read"
type_name write = "Write"
type_name delete = "Delete"
type_name execute = "Execute"
type_name network = "Network"
type_name git = "Git"

-- `created_at.elapsed()`, which fails if the clock was set back.
abbrev pub elapsed : Timestamp → Timestamp → Option ℕ
elapsed now created = if leb created now then some (now - created) else none

abbrev pub ttl : PermissionSystem → ℕ
ttl s = s.config.cache_ttl_seconds * 1000000000

-- Younger than the time to live: of unknown age, as given.
abbrev pub is_young : Bool → ℕ → Timestamp → CacheEntry → Bool
is_young unknown limit now e = elim (elapsed now e.created_at) [
  | some age ↦ ltb age limit
  | none ↦ unknown
]

unfoldable pub get_cached_in : String → ℕ → Timestamp → List CacheEntry → Option PermissionResponse
get_cached_in hash limit now [] = none
get_cached_in hash limit now (e ∷ es) =
    let later = get_cached_in hash limit now es in
    if str_eq e.hash hash && is_young false limit now e then some e.response else later

unfoldable pub get_cached : String → Timestamp → PermissionSystem → Option PermissionResponse
unfolding get_cached_in
get_cached hash now s = get_cached_in hash (ttl s) now s.cache

unfoldable pub cleanup_cache : Timestamp → PermissionSystem → PermissionSystem
cleanup_cache now s = record s { cache = retain (is_young true (ttl s) now) s.cache }

unfoldable pub cache_response :
    Timestamp → Timestamp → String → PermissionResponse → PermissionSystem → PermissionSystem
unfolding cleanup_cache
cache_response created cleaned hash response s = cleanup_cache cleaned (record s {
  cache = push s.cache (record { hash = hash; response = response; created_at = created });
})

-- The loop of `confirm`: the first entry with the hash is allowed, if there is one.
unfoldable pub confirm_entry : String → List CacheEntry → Option (List CacheEntry)
confirm_entry hash [] = none
confirm_entry hash (e ∷ es) =
    let later = confirm_entry hash es in
    if str_eq e.hash hash
    then some (record e { response = allow } ∷ es)
    else Option.map (λ (rest : List CacheEntry). e ∷ rest) later

unfoldable pub confirm :
    String → Bool → PermissionSystem → PermissionSystem × Result PermissionError PermissionResponse
unfolding confirm_entry
confirm hash true s = elim (confirm_entry hash s.cache) [
  | some cache ↦ (record s { cache = cache }, ok allow)
  | none ↦ (s, err (invalid_scope hash))
]
confirm hash false s = (s, err (denied "User denied operation"))

module _ (sha256 : String → String) (debug_path : Option FilePath → String) where
  unfoldable pub hash_request : PermissionRequest → String
  hash_request r =
      sha256 (type_name r.permission_type ++ ":" ++ debug_path r.path ++ ":" ++ r.description)

  -- What `check` does without a cached response.
  pub decide :
      Timestamp
      → Timestamp
      → PermissionRequest
      → PermissionSystem
      → PermissionSystem × Result PermissionError PermissionResponse
  unfolding cache_response should_confirm ge
  decide created cleaned r s =
      let level = assess_danger r in
      let hash = hash_request r in
      if should_confirm level s
      then (
        cache_response created cleaned hash (confirmation hash) s,
        err (requires_confirmation ("Operation requires confirmation: " ++ r.description)),
      )
      else if ge level high
      then (s, err (denied ("High-risk operation denied: " ++ r.description)))
      else (s, ok allow)

  -- The clock is read for the look-up, for a new entry, and for the removal of old entries.
  unfoldable pub check :
      Timestamp
      → Timestamp
      → Timestamp
      → PermissionRequest
      → PermissionSystem
      → PermissionSystem × Result PermissionError PermissionResponse
  unfolding decide get_cached should_auto_allow
  check looked created cleaned r s =
      if not s.config.enabled
      then (s, ok allow)
      else if should_auto_allow (assess_danger r) s
      then (s, ok allow)
      else elim (get_cached (hash_request r) looked s) [
        | some cached ↦ (s, ok cached)
        | none ↦ decide created cleaned r s
      ]
