-- ===== src/Client/Pool.antt =====
-- WorkerPool of internal/collector/collector.go: the calls of Submit and the functions that run, as the steps
-- of a state. The tasks are numbered by their calls.
use glint.Common.{ℕ, ◌<◌, List, [], ◌∷◌, ◌++◌, ◌≡◌, length}

-- `capacity` is the channel's, `running` what its slots are taken by. A call of Submit waits until it gets a
-- slot or its context is done.
pub record Pool : Type 0 where
  pub capacity : ℕ
  pub running : List ℕ
  pub waiting : List ℕ
  pub finished : List ℕ
  pub refused : List ℕ

unfoldable pub new_worker_pool : ℕ → Pool
new_worker_pool max_workers = record {
  capacity = max_workers;
  running = [];
  waiting = [];
  finished = [];
  refused = [];
}

-- The calls of Submit, and what becomes of them: a slot is free, fn returns and gives its slot back, or the
-- context of a waiting call is done.
pub data Step : List ℕ → Pool → Pool → Type 0 where
  called : (p : Pool) (t : ℕ) → Step (t ∷ []) p (record p { waiting = t ∷ p.waiting })
  accepted :
      (p : Pool) (t : ℕ) (before rest : List ℕ)
      → p.waiting ≡ before ++ t ∷ rest
      → length p.running < p.capacity
      → Step [] p (record p { waiting = before ++ rest; running = t ∷ p.running })
  returned :
      (p : Pool) (t : ℕ) (before rest : List ℕ)
      → p.running ≡ before ++ t ∷ rest
      → Step [] p (record p { running = before ++ rest; finished = t ∷ p.finished })
  given_up :
      (p : Pool) (t : ℕ) (before rest : List ℕ)
      → p.waiting ≡ before ++ t ∷ rest
      → Step [] p (record p { waiting = before ++ rest; refused = t ∷ p.refused })

-- The steps of a while, with the tasks that were submitted in it.
pub data Steps : List ℕ → Pool → Pool → Type 0 where
  here : {p : Pool} → Steps [] p p
  then_step :
      {p q r : Pool} {ts us vs : List ℕ} → Steps ts p q → Step us q r → vs ≡ us ++ ts → Steps vs p r
