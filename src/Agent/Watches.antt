-- ===== src/Agent/Watches.antt =====
-- internal/agent/watch_manager.go: the watches of a node's volumes and their status.
pub mod Sink
pub mod Life
use simple_volume.Base.{
  ℕ, suc, ◌+◌, ◌*◌, ◌%◌, ◌^◌, Bool, true, false, not, ◌&&◌, ◌||◌, List, [], ◌∷◌, ◌++◌, Option, none,
  some, eqb, ltb, ◌==◌, if◌then◌else◌, map, length,
}
use simple_volume.Base.Dict.{Dict, lookup, insert}
use simple_volume.Base.Int.{ℤ, pos, ltb_ℤ}
use simple_volume.Text.{Text, codes, text_eq, is_empty, trim_space, to_lower}
use simple_volume.Time.{Time, second}
use simple_volume.Controller.Replication.{ConsistencyMode, shadow, live, OwnershipPolicy}

pub record SourceRef : Type 0 where
  pub web_dav_url : Text
  pub user : Text
  pub password : Text

pub record TargetRef : Type 0 where
  pub url : Text
  pub token : Text

pub record WatchStartRequest : Type 0 where
  pub namespace : Text
  pub volume : Text
  pub source : SourceRef
  pub targets : List TargetRef
  pub include_paths : List Text
  pub exclude_paths : List Text
  pub ownership : OwnershipPolicy
  pub debounce : Text
  pub consistency_mode : Text
  pub confirmed_replicas : Option ℤ

-- The counters are the bits of an `int64`.
pub record TargetStatus : Type 0 where
  pub url : Text
  pub last_successful_sync : Option Time
  pub last_observed_generation : Text
  pub last_error : Text
  pub delivered_batch_count : ℕ
  pub delivered_event_count : ℕ
  pub delivery_failure_count : ℕ

pub record WatchStatus : Type 0 where
  pub namespace : Text
  pub volume : Text
  pub source : SourceRef
  pub targets : List TargetRef
  pub target_statuses : List TargetStatus
  pub include_paths : List Text
  pub exclude_paths : List Text
  pub ownership : OwnershipPolicy
  pub consistency_mode : ConsistencyMode
  pub confirmed_replicas : ℤ
  pub running : Bool
  pub started_at : Time
  pub stopped_at : Option Time
  pub last_batch_at : Option Time
  pub last_batch_event_count : ℕ
  pub last_batch_generation : Text
  pub last_delivery_error : Text
  pub last_watch_error : Text
  pub delivered_batch_count : ℕ
  pub delivered_event_count : ℕ
  pub delivery_failure_count : ℕ

abbrev pub add_int64 : ℕ → ℕ → ℕ
add_int64 n k = (n + k) % 2 ^ 64

-- What the goroutine of a watch is given, besides its key.
pub record WatchConfig : Type 0 where
  pub namespace : Text
  pub volume : Text
  pub include_paths : List Text
  pub exclude_paths : List Text
  pub debounce : ℤ
  pub source : SourceRef
  pub targets : List TargetRef
  pub ownership : OwnershipPolicy
  pub consistency_mode : ConsistencyMode
  pub confirmed_replicas : ℤ

-- `managedWatch`. The number stands for the pointer, which is new for each watch.
pub record ManagedWatch : Type 0 where
  pub pointer : ℕ
  pub status : WatchStatus

-- A goroutine that was started, with its key and the pointer of its watch.
pub record Goroutine : Type 0 where
  pub key : Text
  pub pointer : ℕ
  pub config : WatchConfig

-- The map, with the goroutines so far, the last one first, and the watches that are cancelled.
pub record WatchManager : Type 0 where
  pub watches : Dict Text ManagedWatch
  pub goroutines : List Goroutine
  pub cancelled : List ℕ

abbrev pub no_watches : WatchManager
no_watches = record { watches = []; goroutines = []; cancelled = [] }

unfoldable pub watch_key : Text → Text → Text
watch_key namespace volume = namespace ++ codes "/" ++ volume

unfoldable pub normalize_consistency_mode : Text → ConsistencyMode
unfolding trim_space to_lower
normalize_consistency_mode value =
    let mode = to_lower (trim_space value) in
    if mode == [] || mode == codes "shadow"
    then shadow
    else if mode == codes "live"
    then live
    else shadow

unfoldable pub confirmation_threshold : ℤ → ℕ → ℤ
confirmation_threshold value targets =
    if not (ltb_ℤ (pos 0) value)
    then pos 0
    else if ltb 0 targets && ltb_ℤ (pos targets) value
    then pos targets
    else value

unfoldable pub default_confirmed_replicas : Option ℤ → ℕ → ℤ
unfolding confirmation_threshold
default_confirmed_replicas none targets = confirmation_threshold (pos 1) targets
default_confirmed_replicas (some value) targets = confirmation_threshold value targets

abbrev pub new_target_status : Text → TargetStatus
new_target_status url = record {
  url = url;
  last_successful_sync = none;
  last_observed_generation = [];
  last_error = [];
  delivered_batch_count = 0;
  delivered_event_count = 0;
  delivery_failure_count = 0;
}

unfoldable pub initial_target_statuses : List TargetRef → List TargetStatus
initial_target_statuses = map (λ target. new_target_status target.url)

-- The errors of `Start`; the number is the index of the target.
pub data StartError : Type 0 where
  volume_required source_required target_required invalid_debounce : StartError
  target_url_required : ℕ → StartError

-- The index of the first target without an address, from an index on.
unfoldable pub missing_url : ℕ → List TargetRef → Option ℕ
unfolding is_empty trim_space
missing_url i [] = none
missing_url i (target ∷ targets) =
    let rest = missing_url (suc i) targets in
    if is_empty (trim_space target.url) then some i else rest

-- `time.ParseDuration` is an argument, since the fractions that it reads are computed in floating
-- point; its result is only handed on.
unfoldable pub parse_optional_duration : (Text → Option ℤ) → Text → ℤ → Option ℤ
unfolding is_empty trim_space
parse_optional_duration parse_duration value fallback =
    let trimmed = trim_space value in
    if is_empty trimmed then some fallback else parse_duration trimmed

unfoldable pub new_status : WatchStartRequest → Time → WatchStatus
unfolding normalize_consistency_mode default_confirmed_replicas initial_target_statuses
new_status r now = record {
  namespace = r.namespace;
  volume = r.volume;
  source = r.source;
  targets = r.targets;
  target_statuses = initial_target_statuses r.targets;
  include_paths = r.include_paths;
  exclude_paths = r.exclude_paths;
  ownership = r.ownership;
  consistency_mode = normalize_consistency_mode r.consistency_mode;
  confirmed_replicas = default_confirmed_replicas r.confirmed_replicas (length r.targets);
  running = true;
  started_at = now;
  stopped_at = none;
  last_batch_at = none;
  last_batch_event_count = 0;
  last_batch_generation = [];
  last_delivery_error = [];
  last_watch_error = [];
  delivered_batch_count = 0;
  delivered_event_count = 0;
  delivery_failure_count = 0;
}

unfoldable pub new_config : WatchStartRequest → ℤ → WatchConfig
unfolding normalize_consistency_mode default_confirmed_replicas
new_config r debounce = record {
  namespace = r.namespace;
  volume = r.volume;
  include_paths = r.include_paths;
  exclude_paths = r.exclude_paths;
  debounce = debounce;
  source = r.source;
  targets = r.targets;
  ownership = r.ownership;
  consistency_mode = normalize_consistency_mode r.consistency_mode;
  confirmed_replicas = default_confirmed_replicas r.confirmed_replicas (length r.targets);
}

-- `existing.cancel()`.
unfoldable pub cancel_existing : Option ManagedWatch → List ℕ → List ℕ
cancel_existing none cancelled = cancelled
cancel_existing (some watch) cancelled = watch.pointer ∷ cancelled

-- A new watch takes the place of the one of its volume.
unfoldable pub install : WatchStartRequest → ℤ → Time → WatchManager → WatchManager
unfolding watch_key new_status new_config cancel_existing lookup insert
install r debounce now m =
    let key = watch_key r.namespace r.volume in
    let pointer = length m.goroutines in
    record {
      watches = insert key (record { pointer = pointer; status = new_status r now }) m.watches;
      goroutines =
          record { key = key; pointer = pointer; config = new_config r debounce } ∷ m.goroutines;
      cancelled = cancel_existing (lookup key m.watches) m.cancelled;
    }

pub data Started : Type 0 where
  started : WatchStatus → WatchManager → Started
  refused : StartError → Started

unfoldable pub start_with : Option ℤ → WatchStartRequest → Time → WatchManager → Started
unfolding install new_status
start_with none r now m = refused invalid_debounce
start_with (some debounce) r now m = started (new_status r now) (install r debounce now m)

unfoldable pub start_targets :
    (Text → Option ℤ) → Option ℕ → WatchStartRequest → Time → WatchManager → Started
unfolding start_with parse_optional_duration
start_targets parse_duration (some i) r now m = refused (target_url_required i)
start_targets parse_duration none r now m =
    start_with (parse_optional_duration parse_duration r.debounce (pos (5 * second))) r now m

unfoldable pub start : (Text → Option ℤ) → WatchStartRequest → Time → WatchManager → Started
unfolding is_empty missing_url start_targets
start parse_duration r now m =
    if is_empty r.volume
    then refused volume_required
    else if is_empty r.source.web_dav_url
    then refused source_required
    else if eqb (length r.targets) 0
    then refused target_required
    else start_targets parse_duration (missing_url 0 r.targets) r now m

unfoldable pub stopped_status : Time → WatchStatus → WatchStatus
stopped_status now status = record status { running = false; stopped_at = some now }

unfoldable pub stop_at :
    Text → Time → Option ManagedWatch → WatchManager → Option WatchStatus × WatchManager
unfolding stopped_status insert
stop_at key now none m = (none, m)
stop_at key now (some watch) m =
    let status = stopped_status now watch.status in
    (
      some status,
      record m {
        watches = insert key (record watch { status = status }) m.watches;
        cancelled = watch.pointer ∷ m.cancelled;
      },
    )

-- Nothing is returned for a volume without a watch.
unfoldable pub stop : Text → Text → Time → WatchManager → Option WatchStatus × WatchManager
unfolding watch_key lookup stop_at
stop namespace volume now m =
    let key = watch_key namespace volume in stop_at key now (lookup key m.watches) m

unfoldable pub status_of : Text → Text → WatchManager → Option WatchStatus
unfolding watch_key lookup
status_of namespace volume m = elim (lookup (watch_key namespace volume) m.watches) [
  | none ↦ none
  | some watch ↦ some watch.status
]

-- In the order of the map, which the code leaves open.
unfoldable pub statuses : WatchManager → List WatchStatus
statuses m = map (λ e. e.1.status) m.watches
