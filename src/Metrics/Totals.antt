-- ===== src/Metrics/Totals.antt =====
-- The gauges add up to the tables, internal/metrics/collector.go.
use fleetforge.Base.{
  ℕ, zero, suc, ◌+◌, ◌<◌, ◌≡◌, refl, ap, ◌∙◌, true, false, ◌&&◌, ◌==◌, ltb, List, [], ◌∷◌, arith,
  length, count, All, Bool-cases, inl, inr, if◌then◌else◌,
}
use fleetforge.Schema.{
  WorkerStatus, registering, ready, busy, draining, offline, dead, queued, worker_status_eq,
  job_status_eq, Worker, Job,
}
use fleetforge.World.{World, ok, pure, attempt, statement, and_then, ◌>>=◌}
use fleetforge.JobStore.Create.{count_queued_by_priority}
use fleetforge.WorkerStore.Drain.{count_by_status}
use fleetforge.Metrics.{Gauges, set_jobs_queued, set_workers, collect}

-- f 0 + … + f (n - 1).
abbrev pub sum_below : ℕ → (ℕ → ℕ) → ℕ
sum_below zero f = 0
sum_below (suc n) f = sum_below n f + f n

sum_zero : (n : ℕ) → sum_below n (λ p. 0) ≡ 0
sum_zero zero = refl
sum_zero (suc n) = omega (arith, sum_zero n)

sum_one_more :
    (n k : ℕ) (f : ℕ → ℕ)
    → sum_below n (λ p. if k == p then suc (f p) else f p)
      ≡ (if ltb k n then suc (sum_below n f) else sum_below n f)
sum_one_more zero k f = ground arith
sum_one_more (suc n) k f = ground (arith, sum_one_more n k f)

-- Jobs by priority.
priorities_total :
    (n : ℕ) (js : List Job)
    → All (λ (j : Job). j.priority < n) js
    → sum_below n (λ p. count (λ (j : Job). job_status_eq j.status queued && j.priority == p) js)
      ≡ count (λ (j : Job). job_status_eq j.status queued) js
unfolding count
priorities_total n [] low = sum_zero n
priorities_total n (j ∷ js) low = elim (Bool-cases (job_status_eq j.status queued)) [
  | inl t ↦
      let below : ltb j.priority n ≡ true = ground (arith, low.0) in
      rw t (sum_one_more n j.priority _ ∙ rw below (ap suc (priorities_total n js low.1)))
  | inr f ↦ rw f (priorities_total n js low.1)
]

-- The six labels of the loop.
abbrev pub statuses_sum : (WorkerStatus → ℕ) → ℕ
statuses_sum f = f registering + f ready + f busy + f draining + f offline + f dead

one_status :
    (s : WorkerStatus) (f : WorkerStatus → ℕ)
    → statuses_sum (λ t. if worker_status_eq s t then suc (f t) else f t) ≡ suc (statuses_sum f)
one_status registering f = omega arith
one_status ready f = omega arith
one_status busy f = omega arith
one_status draining f = omega arith
one_status offline f = omega arith
one_status dead f = omega arith

statuses_total :
    (ws : List Worker)
    → statuses_sum (λ s. count (λ (w : Worker). worker_status_eq w.status s) ws) ≡ length ws
unfolding count
statuses_total [] = refl
statuses_total (w ∷ ws) =
    one_status w.status (λ s. count (λ (v : Worker). worker_status_eq v.status s) ws)
    ∙ ap suc (statuses_total ws)

-- With the priorities of all jobs below 10 and both queries answered, the gauges that the
-- Collector sets add up: over the ten priorities to the number of QUEUED jobs, over the six
-- statuses to the number of workers; the tables and Redis are left as they were.
pub collect_totals :
    (g : Gauges) (w : World)
    → w.fails w.calls ≡ false
    → w.fails (w.calls + 1) ≡ false
    → All (λ (j : Job). j.priority < 10) w.db.jobs
    → (g' : Gauges) × (collect g w ≡ (ok g', record w { calls = w.calls + 1 + 1 }))
      × (sum_below 10 g'.jobs_queued ≡ count (λ (j : Job). job_status_eq j.status queued) w.db.jobs)
      × (statuses_sum g'.workers_by_status ≡ length w.db.workers)
unfolding collect set_jobs_queued set_workers count_queued_by_priority count_by_status pure attempt
    statement and_then ◌>>=◌
collect_totals g w runs1 runs2 low = (
  record {
    jobs_queued = λ p.
        if ltb p 10
        then count (λ (j : Job). job_status_eq j.status queued && j.priority == p) w.db.jobs
        else g.jobs_queued p;
    workers_by_status = λ s. count (λ (v : Worker). worker_status_eq v.status s) w.db.workers;
  },
  rw (runs1, runs2) refl,
  priorities_total 10 w.db.jobs low,
  statuses_total w.db.workers,
)
