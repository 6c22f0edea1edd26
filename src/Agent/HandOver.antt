-- ===== src/Agent/HandOver.antt =====
-- An assigned job gets to its worker: internal/grpcserver/heartbeat.go with the agent of
-- cmd/worker-agent/main.go.
use fleetforge.Base.{
  ℕ, ◌+◌, ◌≡◌, refl, sym, ap, ◌∙◌, true, false, ◌==◌, Option, none, some, arith, query_row,
  Bool-cases, inl, inr,
}
use fleetforge.Schema.{Uuid, Instant, WorkerStatus, busy, worker_status_eq, Job, assigned}
use fleetforge.Statements.{job_with_id}
use fleetforge.World.{World, ok, pure, attempt, statement, command}
use fleetforge.JobStore.Create.{get}
use fleetforge.RedisStore.Cache.{CachedState, read_hash, get_state}
use fleetforge.Effects.Values.{
  Returns, Anything, Returns-bind, Returns-run, Returns-pure, Returns-attempt, Returns-ignore,
}
use fleetforge.Grpc.Proto.{HeartbeatRequest, HeartbeatResponse, JobAssignment}
use fleetforge.Grpc.Heartbeat.{
  Known, known_from_cache, pushable, to_assignment, pending_assignment, confirm_running, must_flush,
  flush, accept, heartbeat_of, handle_heartbeat,
}
use fleetforge.Agent.{
  AgentState, accepted, receive, heartbeat, follow_drain, start_accepted, start_job, set_draining,
  clear_draining,
}

-- The cache has the worker BUSY under the epoch with the job, which is ASSIGNED.
pub record IsAssignedTo (w : World) (wid : Uuid) (e : ℕ) (job : Job) : Type 0 where
  pub entry : CachedState
  pub cached :
      read_hash (w.redis.states wid).state (w.redis.states wid).drain_requested ≡ some entry
  pub epoch : entry.epoch ≡ e
  pub is_busy : entry.status ≡ some busy
  pub jid : Uuid
  pub named : entry.current_job_id ≡ some jid
  pub stored : query_row (job_with_id jid) w.db.jobs ≡ some job
  pub is_assigned : job.status ≡ assigned

abbrev pub assignment_of : ℕ → Job → JobAssignment
assignment_of e j = record {
  job_id = j.id;
  assignment_epoch = e;
  repository = j.repository;
  branch = j.branch;
  commit_sha = j.commit_sha;
}

pub confirm-Returns :
    (now : Instant) (e : ℕ) (s : WorkerStatus) (o : Option Uuid) (w : World)
    → Returns Anything (confirm_running now e s o) w
unfolding confirm_running
confirm-Returns now e s none w = Returns-pure Anything tt w tt
confirm-Returns now e s (some jid) w = elim (Bool-cases (worker_status_eq s busy)) [
  | inl t ↦ rw t (Returns-bind (Returns-attempt _ w) (λ r h. Returns-pure Anything tt _ tt))
  | inr f ↦ rw f (Returns-pure Anything tt w tt)
]

pub flush-Returns :
    (now : Instant) (wid : Uuid) (e : ℕ) (s : WorkerStatus) (o : Option Uuid)
    (c : Option CachedState) (w : World)
    → Returns Anything (flush now wid e s o c) w
unfolding flush
flush-Returns now wid e s o c w = elim (Bool-cases (must_flush now s c)) [
  | inl t ↦ rw t (Returns-bind (Returns-attempt _ w) (λ r h. Returns-pure Anything _ _ tt))
  | inr f ↦ rw f (Returns-pure Anything _ w tt)
]

pub accept-Returns :
    (now : Instant) (timeout_seconds : ℕ) (wid : Uuid) (req : HeartbeatRequest) (known : Known)
    (w : World) (o : Option JobAssignment)
    → req.epoch ≡ known.epoch
    → Returns
        (λ a. a ≡ o)
        (pending_assignment known.epoch (pushable known.cached req.current_job_id))
        w
    → Returns
        (λ (resp : HeartbeatResponse). resp.assignment ≡ o)
        (accept now timeout_seconds wid req known)
        w
unfolding accept
accept-Returns now timeout_seconds wid req known w o same pending =
    let equal : (req.epoch == known.epoch) ≡ true = ground arith in
    rw equal (
      Returns-bind pending (λ a is_o. Returns-bind (confirm-Returns _ _ _ _ _) (λ u h1.
        Returns-bind (flush-Returns _ _ _ _ _ _ _) (λ n h2.
          Returns-bind (Returns-ignore _ _)
            (λ v h3. Returns-bind (Returns-ignore _ _) (λ v h4. Returns-pure _ _ _ is_o))))))

pending-Returns :
    (e : ℕ) (jid : Uuid) (job : Job) (w : World)
    → w.fails w.calls ≡ false
    → query_row (job_with_id jid) w.db.jobs ≡ some job
    → job.status ≡ assigned
    → Returns (λ a. a ≡ some (assignment_of e job)) (pending_assignment e (some jid)) w
unfolding pending_assignment get statement to_assignment
pending-Returns e jid job w runs stored is_assigned =
    Returns-bind (Returns-attempt _ w)
      (λ r is_r. Returns-pure _ _ _ (rw (is_r, runs, stored) (rw is_assigned refl)))

pushable_busy : (c : CachedState) → c.status ≡ some busy → pushable (some c) none ≡ c.current_job_id
unfolding pushable
pushable_busy c h = rw h refl

pub read_state :
    (wid : Uuid) (w : World)
    → w.fails w.calls ≡ false
    → attempt (get_state wid) w ≡ (
      ok (ok (read_hash (w.redis.states wid).state (w.redis.states wid).drain_requested)),
      record w { calls = w.calls + 1 },
    )
unfolding get_state command attempt
read_state wid w runs = rw runs refl

module _ (now : Instant) (timeout_seconds : ℕ) (wid : Uuid) (e : ℕ) (job : Job) (w : World)
    (a : AgentState) where
  abbrev pub Pushes : HeartbeatResponse → Type 0
  Pushes resp = resp.assignment ≡ some (assignment_of e job)

  accept-Pushes :
      (c : CachedState) (jid : Uuid) (v : World)
      → c.epoch ≡ e
      → pushable (some c) a.current_job_id ≡ some jid
      → v.fails v.calls ≡ false
      → query_row (job_with_id jid) v.db.jobs ≡ some job
      → job.status ≡ assigned
      → Returns Pushes
          (accept now timeout_seconds wid
            (heartbeat wid e a)
            (record { epoch = c.epoch; drain_requested = c.drain_requested; cached = some c }))
          v
  unfolding heartbeat
  accept-Pushes c jid v same names runs stored is_assigned =
      accept-Returns now timeout_seconds wid (heartbeat wid e a) _ v (some (assignment_of e job))
        (sym same) (rw (names, same) (pending-Returns e jid job v runs stored is_assigned))

  pub pushes :
      (there : IsAssignedTo w wid e job)
      → w.fails w.calls ≡ false
      → w.fails (w.calls + 1) ≡ false
      → a.current_job_id ≡ none
      → Returns Pushes (handle_heartbeat now timeout_seconds (heartbeat wid e a)) w
  unfolding handle_heartbeat heartbeat_of heartbeat known_from_cache pure
  pushes there runs1 runs2 idle =
      Returns-run _ _ _ w (ok (some there.entry)) (record w { calls = w.calls + 1 })
        (read_state wid w runs1
          ∙ ap (λ o. (ok (ok o), record w { calls = w.calls + 1 })) there.cached)
        (Returns-run _ _ _ _ _ _ refl (
          accept-Pushes there.entry there.jid _ there.epoch
            (rw idle (pushable_busy there.entry there.is_busy) ∙ there.named) runs2 there.stored
            there.is_assigned))

  received :
      (resp : HeartbeatResponse)
      → resp.assignment ≡ some (assignment_of e job)
      → a.current_job_id ≡ none
      → a.draining ≡ false
      → ((receive resp a).1 ≡ some (assignment_of e job))
        × ((receive resp a).0.current_job_id ≡ some job.id)
  unfolding receive accepted follow_drain start_accepted start_job set_draining clear_draining
  received resp is_pushed idle active = elim (Bool-cases resp.drain_requested) [
    | inl t ↦ rw (is_pushed, idle, active, t) (refl, refl)
    | inr f ↦ rw (is_pushed, idle, active, f) (refl, refl)
  ]

  -- If the cache has the worker BUSY under its epoch with an ASSIGNED job, and the reads of the
  -- cache and of the job do not fail, then the next heartbeat of an agent that is idle and not
  -- draining is answered, whichever other calls fail, and the agent starts exactly that job.
  pub handle_heartbeat-hands_over :
      IsAssignedTo w wid e job
      → w.fails w.calls ≡ false
      → w.fails (w.calls + 1) ≡ false
      → a.current_job_id ≡ none
      → a.draining ≡ false
      → (resp : HeartbeatResponse) × ((handle_heartbeat now timeout_seconds (heartbeat wid e a) w).0
          ≡ ok resp)
        × ((receive resp a).1 ≡ some (assignment_of e job))
        × ((receive resp a).0.current_job_id ≡ some job.id)
  handle_heartbeat-hands_over there runs1 runs2 idle active =
      let returned = pushes there runs1 runs2 idle in
      let (started, busy_with) = received returned.value returned.satisfies idle active in
      (returned.value, returned.is_value, started, busy_with)
