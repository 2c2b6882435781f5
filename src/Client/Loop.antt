-- ===== src/Client/Loop.antt =====
-- `Run` of internal/collector/collector.go: the loop of a collector, over the signals that its select takes.
-- The state is what Collect changes; its error is only logged.
use glint.Common.{Option, ℕ, zero, suc, List, [], ◌∷◌, ◌≡◌, refl, false, if◌then◌else◌}
use glint.Common.Int.{ℤ, pos, leb_ℤ}

-- What the select takes: the ticker, or the context that is done.
pub data Signal : Type 0 where
  tick done : Signal

-- How the loop stands when the signals are used up: it waits, or has returned, or NewTicker panicked.
pub data Stand : Type 0 where
  waits returns panics : Stand

pub record Looped (S : Type 0) : Type 0 where
  pub state : S
  pub stand : Stand

module _ {S E : Type 0} (collect : S → S × Option E) where
  run_loop : List Signal → S → Looped S
  run_loop [] s = record { state = s; stand = waits }
  run_loop (done ∷ signals) s = record { state = s; stand = returns }
  run_loop (tick ∷ signals) s = run_loop signals (collect s).0

  unfoldable pub run : (interval : ℤ) → List Signal → S → Looped S
  unfolding run_loop
  run interval signals s =
      let s' = (collect s).0 in
      if leb_ℤ interval (pos 0) then record { state = s'; stand = panics } else run_loop signals s'

  -- So many calls of Collect, one after the other.
  abbrev pub collected : ℕ → S → S
  collected zero s = s
  collected (suc n) s = collected n (collect s).0

-- The ticks before the context is done.
abbrev ticks_until_done : List Signal → ℕ
ticks_until_done [] = 0
ticks_until_done (done ∷ signals) = 0
ticks_until_done (tick ∷ signals) = suc (ticks_until_done signals)

abbrev stand_of : List Signal → Stand
stand_of [] = waits
stand_of (done ∷ signals) = returns
stand_of (tick ∷ signals) = stand_of signals

module _ {S E : Type 0} (collect : S → S × Option E) where
  run_loop-collected :
      (signals : List Signal) (s : S)
      → run_loop collect signals s ≡ record {
        state = collected collect (ticks_until_done signals) s;
        stand = stand_of signals;
      }
  unfolding run_loop
  run_loop-collected [] s = refl
  run_loop-collected (done ∷ signals) s = refl
  run_loop-collected (tick ∷ signals) s = run_loop-collected signals (collect s).0

  -- With a positive interval a collector collects once at the start and once more for each tick before its
  -- context is done, whether or not a collection fails, and returns at no other time than when the context is
  -- done.
  run-collected :
      (interval : ℤ) (signals : List Signal) (s : S)
      → leb_ℤ interval (pos 0) ≡ false
      → run collect interval signals s ≡ record {
        state = collected collect (suc (ticks_until_done signals)) s;
        stand = stand_of signals;
      }
  unfolding run
  run-collected interval signals s h = rw h (run_loop-collected signals (collect s).0)
