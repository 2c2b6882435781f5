-- ===== src/Client/Rest.antt =====
-- WorkerPool of internal/collector/collector.go: what becomes of the tasks.
use mathlib.Core.List.{append_assoc}
use glint.Common.{ℕ, ◌+◌, ◌≤◌, List, [], ◌∷◌, ◌++◌, ◌≡◌, refl, ap, ◌∙◌, arith, length, count, ◌==◌}
use glint.Client.Pool.{
  Pool, Step, Steps, new_worker_pool, called, accepted, returned, given_up, here, then_step,
}

-- How often a task stands in a list.
abbrev pub times : ℕ → List ℕ → ℕ
times t = count (λ u. u == t)

abbrev pub places : ℕ → Pool → ℕ
places t p = times t p.running + times t p.waiting + times t p.finished + times t p.refused

times-append : (t : ℕ) (xs ys : List ℕ) → times t (xs ++ ys) ≡ times t xs + times t ys
times-append t [] ys = omega arith
times-append t (x ∷ xs) ys = ground (arith, times-append t xs ys)

times-middle :
    (t u : ℕ) (xs ys : List ℕ) → times t (xs ++ u ∷ ys) ≡ times t (u ∷ []) + times t (xs ++ ys)
times-middle t u [] ys = ground arith
times-middle t u (x ∷ xs) ys = ground (arith, times-middle t u xs ys)

length-middle : (u : ℕ) (xs ys : List ℕ) → length (xs ++ u ∷ ys) ≡ length (xs ++ ys) + 1
length-middle u [] ys = omega arith
length-middle u (x ∷ xs) ys = omega (arith, length-middle u xs ys)

Step-places :
    (t : ℕ) {ts : List ℕ} {p q : Pool} → Step ts p q → places t q ≡ times t ts + places t p
Step-places t (called p u) = ground arith
Step-places t (accepted p u before rest e room) =
    rw e (ground (arith, times-middle t u before rest))
Step-places t (returned p u before rest e) = rw e (ground (arith, times-middle t u before rest))
Step-places t (given_up p u before rest e) = rw e (ground (arith, times-middle t u before rest))

Step-within :
    {ts : List ℕ} {p q : Pool}
    → Step ts p q
    → length p.running ≤ p.capacity
    → (length q.running ≤ q.capacity) × (q.capacity ≡ p.capacity)
Step-within (called p u) h = (h, refl)
Step-within (accepted p u before rest e room) h = (omega arith, refl)
Step-within (returned p u before rest e) h =
    (omega (arith, ap length e, length-middle u before rest), refl)
Step-within (given_up p u before rest e) h = (h, refl)

Steps-places :
    (t : ℕ) {ts : List ℕ} {p q : Pool} → Steps ts p q → places t q ≡ times t ts + places t p
Steps-places t here = omega arith
Steps-places t (then_step {ts} {us} steps step e) =
    rw e (omega (arith, Steps-places t steps, Step-places t step, times-append t us ts))

Steps-within :
    {ts : List ℕ} {p q : Pool}
    → Steps ts p q
    → length p.running ≤ p.capacity
    → (length q.running ≤ q.capacity) × (q.capacity ≡ p.capacity)
Steps-within here h = (h, refl)
Steps-within (then_step steps step e) h =
    let a = Steps-within steps h in let b = Step-within step a.0 in (b.0, b.1 ∙ a.1)

-- One step more, with no call.
later : {ts : List ℕ} {p q r : Pool} → Steps ts p q → Step [] q r → Steps ts p r
later steps step = then_step steps step refl

join : {ts us : List ℕ} {p q r : Pool} → Steps ts p q → Steps us q r → Steps (us ++ ts) p r
join steps here = steps
join {ts} steps (then_step {ts = us} {us = vs} more step e) =
    then_step (join steps more) step (rw e (append_assoc vs us ts))

-- Without another call, the tasks that run end.
all_return :
    (rs : List ℕ) (p : Pool)
    → p.running ≡ rs
    → (q : Pool) × Steps [] p q
      × (q.running ≡ [])
      × (q.waiting ≡ p.waiting)
      × (q.capacity ≡ p.capacity)
      × (q.refused ≡ p.refused)
all_return [] p e = (p, here, e, refl, refl, refl)
all_return (t ∷ rs) p e =
    let (q, steps, a, b, c, d) =
      all_return rs (record p { running = rs; finished = t ∷ p.finished }) refl in
    (q, join (then_step here (returned p t [] rs e) refl) steps, a, b, c, d)

-- Without another call, the tasks that wait get their slots one by one.
all_accepted :
    (ws : List ℕ) (p : Pool)
    → p.waiting ≡ ws
    → p.running ≡ []
    → 1 ≤ p.capacity
    → (q : Pool) × Steps [] p q × (q.running ≡ []) × (q.waiting ≡ []) × (q.refused ≡ p.refused)
all_accepted [] p e r room = (p, here, r, e, refl)
all_accepted (t ∷ ws) p e r room =
    let p1 : Pool = record p { waiting = ws; running = t ∷ p.running } in
    let p2 : Pool = record p1 { running = []; finished = t ∷ p.finished } in
    let (q, steps, a, b, c) = all_accepted ws p2 refl refl room in
    (
      q,
      join
          (later (then_step here (accepted p t [] ws e (omega (arith, ap length r))) refl)
            (returned p1 t [] [] (ap (λ l. t ∷ l) r)))
          steps,
      a,
      b,
      c,
    )

-- In every state that a pool reaches, at most as many tasks run as it has slots, and every task that was
-- submitted is running, waiting, ended or refused, and only one of these: each number stands as often in the
-- four lists together as among the calls.
pub Steps-accounted :
    (max_workers : ℕ) {ts : List ℕ} {p : Pool}
    → Steps ts (new_worker_pool max_workers) p
    → (length p.running ≤ max_workers) × ((t : ℕ) → places t p ≡ times t ts)
unfolding new_worker_pool
Steps-accounted max_workers steps =
    let (within, same) = Steps-within steps (omega arith) in
    (omega (arith, within, same), λ t. omega (arith, Steps-places t steps))

-- A pool with a slot can come to rest from every state that it reaches, without another call and without
-- refusing a task: then none runs or waits, and each number stands among the tasks that ended or were refused
-- before as often as among the calls.
pub Steps-rest :
    (max_workers : ℕ) {ts : List ℕ} {p : Pool}
    → 1 ≤ max_workers
    → Steps ts (new_worker_pool max_workers) p
    → (q : Pool) × Steps [] p q
      × (q.running ≡ [])
      × (q.waiting ≡ [])
      × ((t : ℕ) → times t q.finished + times t p.refused ≡ times t ts)
unfolding new_worker_pool
Steps-rest max_workers {ts} {p} room steps =
    let (within, same) = Steps-within steps (omega arith) in
    let (p1, ended, r1, w1, c1, f1) = all_return p.running p refl in
    let (q, started, r2, w2, f2) =
      all_accepted p.waiting p1 w1 r1 (omega (arith, c1, same, room)) in
    (
      q,
      join ended started,
      r2,
      w2,
      λ t. omega (
        arith,
        Steps-places t steps,
        Steps-places t (join ended started),
        ap (times t) r2,
        ap (times t) w2,
        ap (times t) (f2 ∙ f1),
      ),
    )
