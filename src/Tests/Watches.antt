-- ===== src/Tests/Watches.antt =====
-- Watches, their batches and their ends.
use mathlib.Core.List.{Memᴰ}
use simple_volume.Base.{
  ◌≡◌, refl, true, false, [], ◌∷◌, Option, none, some, contains, length, nat_eq, if◌then◌else◌,
  ◌==◌,
}
use simple_volume.Base.Dict.{lookup}
use simple_volume.Base.Int.{ℤ, pos, ltb_ℤ}
use simple_volume.Text.{Text, codes, text_eq}
use simple_volume.Controller.Ownership.{empty_policy}
use simple_volume.Agent.Snapshot.{upsert}
use simple_volume.Agent.Watches.{
  TargetRef, WatchStartRequest, WatchConfig, ManagedWatch, Goroutine, WatchManager, no_watches,
  start, started, watch_key, confirmation_threshold, stop, install, new_status, new_config,
}
use simple_volume.Agent.Watches.Sink.{
  EventBatch, Network, batch_reports, report_all, watch_stopped, unconfirmed_delivery,
  delivery_error,
}
use simple_volume.Agent.Watches.Sink.Freshness.{takers, last_success}
use simple_volume.Agent.Watches.Sink.Delivery.{sync_of, delivery_freshness}
use simple_volume.Agent.Watches.Life.{
  starting, stopping, Reachable, at_first, then_step, no_step, one_more,
}
use simple_volume.Agent.Watches.Life.Single.{Reachable-single}
use simple_volume.Agent.Watches.Life.Silent.{replaced_watch_silent}

abbrev target_a : TargetRef
target_a = record { url = codes "http://a"; token = [] }

abbrev target_b : TargetRef
target_b = record { url = codes "http://b"; token = [] }

abbrev request : WatchStartRequest
request = record {
  namespace = codes "db";
  volume = codes "data";
  source = record { web_dav_url = codes "http://s"; user = []; password = [] };
  targets = target_a ∷ target_b ∷ [];
  include_paths = [];
  exclude_paths = [];
  ownership = empty_policy;
  debounce = [];
  consistency_mode = codes " Live ";
  confirmed_replicas = some (pos 2);
}

abbrev no_duration : Text → Option ℤ
no_duration _ = none

abbrev first : WatchManager
first = install request (pos 5_000_000_000) 10 no_watches

abbrev second : WatchManager
second = install request (pos 5_000_000_000) 20 first

started_first : start no_duration request 10 no_watches ≡ started (new_status request 10) first
unfolding start install new_status text_eq
started_first = refl

started_second : start no_duration request 20 first ≡ started (new_status request 20) second
unfolding start install new_status text_eq
started_second = refl

abbrev watch : ManagedWatch
watch = record { pointer = 0; status = new_status request 10 }

found_first : lookup (watch_key (codes "db") (codes "data")) first.watches ≡ some watch
unfolding install watch_key new_status text_eq lookup
found_first = refl

reached_first : Reachable first
reached_first =
    then_step at_first (starting no_duration request 10 (new_status request 10) started_first)

reached_second : Reachable second
reached_second =
    then_step reached_first (starting no_duration request 20 (new_status request 20) started_second)

-- The first watch ends after it was replaced, and the volume is stopped then.
replaced_watch_silent_example :
    report_all
      (watch_key (codes "db") (codes "data"))
      0
      (delivery_error target_a (codes "late") ∷ watch_stopped 30 none ∷ [])
      (stop (codes "db") (codes "data") 25 second).1
    ≡ (stop (codes "db") (codes "data") 25 second).1
replaced_watch_silent_example =
    replaced_watch_silent no_duration request 20 (new_status request 20) first second
      (stop (codes "db") (codes "data") 25 second).1 watch
      (delivery_error target_a (codes "late") ∷ watch_stopped 30 none ∷ []) reached_first
      found_first started_second (one_more (stopping (codes "db") (codes "data") 25) no_step)

cancelled_first : (contains second.cancelled 0 ≡ true) × (contains second.cancelled 1 ≡ false)
unfolding install text_eq lookup
cancelled_first = (refl, refl)

Reachable-single_example :
    ((g : Goroutine)
      → Memᴰ g second.goroutines
      → contains second.cancelled g.pointer ≡ false
      → (w : ManagedWatch) × (lookup g.key second.watches ≡ some w) × (w.pointer ≡ g.pointer))
    × ((g k : Goroutine)
        → Memᴰ g second.goroutines
        → Memᴰ k second.goroutines
        → g.key ≡ k.key
        → contains second.cancelled g.pointer ≡ false
        → contains second.cancelled k.pointer ≡ false
        → g.pointer ≡ k.pointer)
    × ((key : Text) (w : ManagedWatch)
        → lookup key second.watches ≡ some w
        → contains second.cancelled w.pointer ≡ true
        → w.status.running ≡ false)
Reachable-single_example = Reachable-single second reached_second

abbrev one_down : Network
one_down = record {
  answer = λ _ target _. if target.url == codes "http://b" then some (codes "down") else none;
  clock = λ _ _. 40;
}

abbrev config : WatchConfig
config = new_config request (pos 5_000_000_000)

abbrev batch : EventBatch
batch = record {
  namespace = codes "db";
  volume = codes "data";
  generation = codes "g";
  source = request.source;
  source_base_path = [];
  ownership = empty_policy;
  deletes_authoritative = false;
  events = record { path = codes "x"; op = upsert } ∷ [];
}

-- One of two targets takes the batch, and both are required.
unconfirmed :
    batch_reports one_down config batch
    ≡ delivery_error target_b (codes "down") ∷ unconfirmed_delivery batch 1 (pos 2) ∷ []
unfolding batch_reports new_config text_eq
unconfirmed = refl

delivery_freshness_example :
    sync_of (codes "http://a") (
      lookup
        (watch_key (codes "db") (codes "data"))
        (report_all
          (watch_key (codes "db") (codes "data"))
          0
          (batch_reports one_down config batch)
          first).watches)
    ≡ (let took = takers one_down batch config.targets in
        let before =
          sync_of
            (codes "http://a")
            (lookup (watch_key (codes "db") (codes "data")) first.watches) in
        if ltb_ℤ
          (pos (length took))
          (confirmation_threshold config.confirmed_replicas (length config.targets))
        then before
        else last_success one_down (codes "http://a") took before)
delivery_freshness_example =
    delivery_freshness one_down config batch (watch_key (codes "db") (codes "data"))
      (codes "http://a") first watch found_first
