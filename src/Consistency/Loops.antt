-- ===== src/Consistency/Loops.antt =====
-- The leader's loops keep what the stores keep, whichever of their calls fail.
use fleetforge.Base.{ℕ, Bool, true, false, Option, none, some, List, not}
use fleetforge.Schema.{Uuid, Instant, Db, Job, queued, job_status_eq}
use fleetforge.World.{Message, Result, ok, err, job_not_found, Action}
use fleetforge.Effects.{
  Keeps, Keeps-statement, Keeps-command, Keeps-pure, Keeps-attempt, Keeps-bind, Keeps-if,
  Keeps-for_each,
}
use fleetforge.Consistency.Operations.{StoreKeeps}
use fleetforge.JobStore.Create.{get}
use fleetforge.WorkerStore.Assign.{Candidate, list_ready_candidates}
use fleetforge.RedisStore.Cache.{set_state, delete}
use fleetforge.RedisStore.Queue.{JobMessage, enqueue, ack, read_new, read_pending}
use fleetforge.Scheduler.Select.{Floats}
use fleetforge.Scheduler.Loop.{
  ignore, after_assignment, settle, assign_to, match_candidates, match_job, process_job,
  process_message, process_batch, read_and_process, tick,
}
use fleetforge.WorkerStore.Liveness.{StaleWorker, list_stale}
use fleetforge.JobStore.Transitions.{list_due_retries}
use fleetforge.Scheduler.Sweeps.{
  after_marking, reap, sweep_all, sweep, after_claim, claim, poll_all, poll,
}

-- What only talks to Redis, or only reads.
pub ignore-Keeps : {I : Db → Type 0} {m : Action (Unit {0})} → Keeps I m → Keeps I (ignore m)
ignore-Keeps km = Keeps-bind (Keeps-attempt km) (λ _. Keeps-pure tt)

pub set_state-Keeps : {I : Db → Type 0} (wid : Uuid) (s : _) → Keeps I (set_state wid s)
unfolding set_state
set_state-Keeps wid s = Keeps-command _

pub ack-Keeps : {I : Db → Type 0} (p n : ℕ) → Keeps I (ack p n)
unfolding ack
ack-Keeps p n = Keeps-command _

pub enqueue-Keeps : {I : Db → Type 0} (m : JobMessage) → Keeps I (enqueue m)
unfolding enqueue
enqueue-Keeps m = Keeps-command _

pub get-Keeps : {I : Db → Type 0} (jid : Uuid) → Keeps I (get jid)
unfolding get
get-Keeps jid = Keeps-statement _ (λ db c. c)

module _ (I : Db → Type 0) (kept : StoreKeeps I) where
  settle-Keeps :
      (p n : ℕ) (j : Job) (chosen : Candidate) (r : Result Bool) → Keeps I (settle p n j chosen r)
  unfolding settle after_assignment
  settle-Keeps p n j chosen (ok true) =
      Keeps-bind (ignore-Keeps (set_state-Keeps _ _)) (λ _. ignore-Keeps (ack-Keeps p n))
  settle-Keeps p n j chosen (ok false) = Keeps-pure tt
  settle-Keeps p n j chosen (err e) = Keeps-pure tt

  module _ (floats : Floats) where
    assign_to-Keeps :
        (p n : ℕ) (j : Job) (o : Option Candidate) → Keeps I (assign_to floats p n j o)
    unfolding assign_to
    assign_to-Keeps p n j none = Keeps-pure tt
    assign_to-Keeps p n j (some chosen) =
        Keeps-bind (Keeps-attempt (kept.assign_job_keeps _ _ _ _)) (settle-Keeps p n j chosen)

    match_candidates-Keeps :
        (p n : ℕ) (j : Job) (r : Result (List Candidate))
        → Keeps I (match_candidates floats p n j r)
    unfolding match_candidates
    match_candidates-Keeps p n j (err e) = Keeps-pure tt
    match_candidates-Keeps p n j (ok cs) = assign_to-Keeps p n j _

    match_job-Keeps : (p : ℕ) (m : Message) (r : Result Job) → Keeps I (match_job floats p m r)
    unfolding match_job
    match_job-Keeps p m (err job_not_found) = ignore-Keeps (ack-Keeps p m.number)
    match_job-Keeps p m (err e) = Keeps-pure tt
    match_job-Keeps p m (ok j) =
        Keeps-if (not (job_status_eq j.status queued)) (λ _. ignore-Keeps (ack-Keeps p m.number))
          λ _.
            Keeps-bind
              (Keeps-attempt (unfold list_ready_candidates in Keeps-statement _ (λ db c. c)))
              (match_candidates-Keeps p m.number j)

    process_job-Keeps : (p : ℕ) (m : Message) (o : Option Uuid) → Keeps I (process_job floats p m o)
    unfolding process_job
    process_job-Keeps p m none = ignore-Keeps (ack-Keeps p m.number)
    process_job-Keeps p m (some jid) =
        Keeps-bind (Keeps-attempt (get-Keeps jid)) (match_job-Keeps p m)

    process_batch-Keeps : (r : Result (List (ℕ × Message))) → Keeps I (process_batch floats r)
    unfolding process_batch process_message
    process_batch-Keeps (err e) = Keeps-pure tt
    process_batch-Keeps (ok batch) =
        Keeps-for_each batch (λ pm. process_job-Keeps pm.0 pm.1 pm.1.job_id)

    pub tick-Keeps : Keeps I (tick floats)
    unfolding tick read_and_process
    tick-Keeps =
        Keeps-bind
          (Keeps-bind (Keeps-attempt (unfold read_new in Keeps-command _)) process_batch-Keeps)
          λ _.
            Keeps-bind (Keeps-attempt (unfold read_pending in Keeps-command _)) process_batch-Keeps

  after_marking-Keeps : (w : StaleWorker) (r : Result (Unit {0})) → Keeps I (after_marking w r)
  unfolding after_marking delete
  after_marking-Keeps w (err e) = Keeps-pure tt
  after_marking-Keeps w (ok u) = ignore-Keeps (Keeps-command _)

  reap-Keeps : (now : Instant) (w : StaleWorker) → Keeps I (reap now w)
  unfolding reap
  reap-Keeps now w =
      Keeps-bind (Keeps-attempt (kept.mark_dead_and_requeue_keeps now w.id w.epoch))
        (after_marking-Keeps w)

  sweep_all-Keeps : (now : Instant) (r : Result (List StaleWorker)) → Keeps I (sweep_all now r)
  unfolding sweep_all
  sweep_all-Keeps now (err e) = Keeps-pure tt
  sweep_all-Keeps now (ok stale) = Keeps-for_each stale (reap-Keeps now)

  pub sweep-Keeps : (now : Instant) (timeout_seconds : ℕ) → Keeps I (sweep now timeout_seconds)
  unfolding sweep
  sweep-Keeps now timeout_seconds =
      Keeps-bind (Keeps-attempt (unfold list_stale in Keeps-statement _ (λ db c. c)))
        (sweep_all-Keeps now)

  after_claim-Keeps : (j : Job) (r : Result Bool) → Keeps I (after_claim j r)
  unfolding after_claim
  after_claim-Keeps j (err e) = Keeps-pure tt
  after_claim-Keeps j (ok false) = Keeps-pure tt
  after_claim-Keeps j (ok true) = ignore-Keeps (enqueue-Keeps _)

  claim-Keeps : (j : Job) → Keeps I (claim j)
  unfolding claim
  claim-Keeps j =
      Keeps-bind (Keeps-attempt (kept.mark_queued_from_retry_keeps j.id j.created_at))
        (after_claim-Keeps j)

  poll_all-Keeps : (r : Result (List Job)) → Keeps I (poll_all r)
  unfolding poll_all
  poll_all-Keeps (err e) = Keeps-pure tt
  poll_all-Keeps (ok due) = Keeps-for_each due claim-Keeps

  pub poll-Keeps : (now : Instant) → Keeps I (poll now)
  unfolding poll
  poll-Keeps now =
      Keeps-bind (Keeps-attempt (unfold list_due_retries in Keeps-statement _ (λ db c. c)))
        poll_all-Keeps
