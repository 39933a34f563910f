-- ===== src/Agent/Watches/Life.antt =====
-- The life of the watches: starts, stops and reports, in any order.
pub mod Kept
pub mod Replaced
pub mod Single
pub mod Silent
use mathlib.Core.List.{Memᴰ}
use simple_volume.Base.{
  ℕ, ◌≡◌, ◌≢◌, ◌⊎◌, ◌<◌, Bool, true, false, List, [], ◌∷◌, Option, none, some, contains, eqb,
  if◌then◌else◌, length, All, nat_eq,
}
use simple_volume.Base.Int.{ℤ}
use simple_volume.Base.Dict.{lookup}
use simple_volume.Text.{Text, text_eq}
use simple_volume.Time.{Time}
use simple_volume.Agent.Watches.{
  WatchStartRequest, WatchStatus, ManagedWatch, Goroutine, WatchManager, no_watches, start, started,
  stop,
}
use simple_volume.Agent.Watches.Sink.{Report, report_to}

-- Each call takes the manager's lock, so the calls come one after the other. A goroutine
-- reports under its own key and pointer only.
pub data Step : WatchManager → WatchManager → Type 0 where
  starting :
      {m n : WatchManager} (parse_duration : Text → Option ℤ) (r : WatchStartRequest) (now : Time)
      (s : WatchStatus)
      → start parse_duration r now m ≡ started s n
      → Step m n
  stopping :
      {m : WatchManager} (namespace volume : Text) (now : Time)
      → Step m (stop namespace volume now m).1
  reporting :
      {m : WatchManager} (g : Goroutine) (report : Report)
      → Memᴰ g m.goroutines
      → Step m (report_to g.key g.pointer report m)

pub data Reachable : WatchManager → Type 0 where
  at_first : Reachable no_watches
  then_step : {m n : WatchManager} → Reachable m → Step m n → Reachable n

pub data Steps : WatchManager → WatchManager → Type 0 where
  no_step : {m : WatchManager} → Steps m m
  one_more : {m n later : WatchManager} → Step m n → Steps n later → Steps m later

-- The key of the goroutine with a pointer.
unfoldable pub key_at : ℕ → List Goroutine → Option Text
key_at p [] = none
key_at p (g ∷ gs) = let rest = key_at p gs in if eqb p (length gs) then some g.key else rest

-- The pointers are the places of the goroutines.
abbrev pub Placed : List Goroutine → Type 0
Placed [] = Unit
Placed (g ∷ gs) = (g.pointer ≡ length gs) × Placed gs

-- A goroutine is cancelled, or its watch is the one at its key.
abbrev pub Accounted : WatchManager → Goroutine → Type 0
Accounted m g =
    (contains m.cancelled g.pointer ≡ true)
    ⊎ ((w : ManagedWatch) × (lookup g.key m.watches ≡ some w) × (w.pointer ≡ g.pointer))

pub record WellFormed (m : WatchManager) : Type 0 where
  pub placed : Placed m.goroutines
  pub bounded : All (λ p. p < length m.goroutines) m.cancelled
  pub known :
      (key : Text) (w : ManagedWatch)
      → lookup key m.watches ≡ some w
      → key_at w.pointer m.goroutines ≡ some key
  pub accounted : All (Accounted m) m.goroutines
  pub stopped :
      (key : Text) (w : ManagedWatch)
      → lookup key m.watches ≡ some w
      → contains m.cancelled w.pointer ≡ true
      → w.status.running ≡ false
