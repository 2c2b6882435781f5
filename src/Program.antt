-- ===== src/Program.antt =====
-- The program as its goroutines run it: the state that they share in memory, and the steps in which they change it.
-- A poll counts as a step of its own, at the instant at which it writes to the cache, and so does a reading of
-- the temperature, a round of the alerter, and a request's snapshot of the cache.
pub mod Sharing
pub mod Online
pub mod Probe
mod Tests
use glint.Common.{ℕ, ◌≡◌, Option, some, List, []}
use glint.Common.Int.{ℤ}
use glint.Common.Text.{Str}
use glint.Common.Float.{Float}
use glint.Cache
use glint.Cache.{Cache, Heap, Snapshot, snapshot, view}
use glint.Alerter.Config.{AlertConfig}
use glint.Alerter.State.{Alerter, new_alerter}
use glint.Alerter.Evaluate.{evaluate}
use glint.Pbs
use glint.Pbs.{PbsApi}
use glint.Pve.{PveCollector, PveSettings, finish, prepare, workers}
use glint.Pve.Parse.{PveApi}
use glint.Pve.Workers.{Event, Interleaved}
use glint.Temperature
use glint.Temperature.{Sensors}

pub record World (F : Type 0) : Type 0 where
  pub cache : Cache F
  pub heap : Heap F
  pub alerter : Alerter

-- The state at the start.
abbrev pub start : {F : Type 0} → World F
start = record { cache = Cache.new; heap = record { cells = []; next = 0 }; alerter = new_alerter }

module _ (fl : Float) where
  open fl use {Carrier}

  -- What a round of the alerter does: it takes a snapshot and evaluates its rules on it.
  unfoldable pub alerted : AlertConfig Carrier → ℕ → (ℤ → ℤ) → World Carrier → World Carrier
  alerted cfg now since w =
      let (c, h) = snapshot w.cache w.heap in
      record w { heap = h; alerter = evaluate fl cfg now since (view h c) w.alerter }

  -- The collectors' own fields are arbitrary in each step.
  pub data Step : World Carrier → World Carrier → Type 0 where
    pve_polled :
        {w : World Carrier} (cfg : PveSettings) (api : PveApi Carrier) (now : ℕ)
        (p q : PveCollector) (es : List (Event Carrier))
        → prepare fl cfg api p ≡ some q
        → Interleaved (workers fl cfg now api q) es
        → Step w (record w {
          cache = (finish fl cfg now es q (w.cache, w.heap)).1.0;
          heap = (finish fl cfg now es q (w.cache, w.heap)).1.1;
        })
    pbs_polled :
        {w : World Carrier} (pbs : Str) (api : PbsApi) (configured : List Str) (now : ℕ)
        (c : Cache Carrier) (calls : List (Pbs.StoreCall Carrier))
        → Pbs.collect pbs api configured now w.cache ≡ some (c, calls)
        → Step w (record w { cache = c })
    temperature_read :
        {w : World Carrier} (inst node : Str) (output : Option (Sensors Carrier))
        → Step w (record w { heap = Temperature.collect fl inst node output w.cache w.heap })
    requested : {w : World Carrier} → Step w (record w { heap = (snapshot w.cache w.heap).1 })
    evaluated :
        {w : World Carrier} (cfg : AlertConfig Carrier) (now : ℕ) (since : ℤ → ℤ)
        → Step w (alerted cfg now since w)

  pub data Steps : World Carrier → World Carrier → Type 0 where
    here : {w : World Carrier} → Steps w w
    then_step : {v w x : World Carrier} → Steps v w → Step w x → Steps v x
