-- ===== src/Grpc/Pending.antt =====
-- What a pending assignment is, internal/grpcserver/heartbeat.go.
use fleetforge.Base.{
  ℕ, ◌≡◌, refl, ap, ◌∙◌, true, ◌==◌, Option, none, some, arith, query_row, Bool-cases, inl, inr,
}
use fleetforge.Schema.{Uuid, Instant, WorkerStatus, busy, Job, JobStatus, assigned, job_status_eq}
use fleetforge.Statements.{job_with_id}
use fleetforge.World.{World, Result, ok, err, pure, throw, attempt, statement, and_then, ◌>>=◌}
use fleetforge.JobStore.Create.{get}
use fleetforge.RedisStore.Cache.{CachedState}
use fleetforge.Effects.Values.{bind_ok, ok_eq}
use fleetforge.Grpc.Proto.{HeartbeatRequest, HeartbeatResponse, JobAssignment}
use fleetforge.Grpc.Heartbeat
use fleetforge.Grpc.Heartbeat.{
  Known, known_from_db, fall_back, known_from_cache, pushable, to_assignment, pending_assignment,
  accept, heartbeat_of, handle_heartbeat,
}

is_assigned_eq : (s : JobStatus) → job_status_eq s assigned ≡ true → s ≡ assigned
is_assigned_eq s h = ground arith

to_assignment-some :
    (e : ℕ) (r : Result Job) (x : JobAssignment)
    → to_assignment e r ≡ some x
    → (j : Job) × (r ≡ ok j) × (j.status ≡ assigned) × (x.job_id ≡ j.id) × (x.assignment_epoch ≡ e)
unfolding to_assignment
to_assignment-some e (err y) x h = absurd (cc)
to_assignment-some e (ok j) x h = elim (Bool-cases (job_status_eq j.status assigned)) [
  | inr f ↦ absurd (cc (rw f at h))
  | inl t ↦ let made = rw t at h in (j, refl, is_assigned_eq j.status t, ground arith, ground arith)
]

pub get_ok :
    (jid : Uuid) (w : World) (j : Job)
    → (get jid w).0 ≡ ok j
    → query_row (job_with_id jid) w.db.jobs ≡ some j
unfolding get statement
get_ok jid w j h = ground arith

job_pending :
    (e : ℕ) (jid : Uuid) (w : World) (x : JobAssignment)
    → (pending_assignment e (some jid) w).0 ≡ ok (some x)
    → (j : Job) × (query_row (job_with_id jid) w.db.jobs ≡ some j)
      × (j.status ≡ assigned)
      × (x.job_id ≡ j.id)
      × (x.assignment_epoch ≡ e)
unfolding pending_assignment attempt ◌>>=◌ and_then pure
job_pending e jid w x h =
    let (j, got, is_assigned, job_id, epoch) = to_assignment-some e (get jid w).0 x (ok_eq _ _ h) in
    (j, get_ok jid w j got, is_assigned, job_id, epoch)

is_busy_eq : (o : Option WorkerStatus) → Heartbeat.is_busy o ≡ true → o ≡ some busy
is_busy_eq none h = absurd (cc)
is_busy_eq (some s) h = ground arith

-- The cache entry and the job behind a pending assignment.
pub record IsNamed (cached : Option CachedState) (reported : Option Uuid) (e : ℕ) (w : World)
    (x : JobAssignment) : Type 0 where
  pub entry : CachedState
  pub jid : Uuid
  pub job : Job
  pub is_entry : cached ≡ some entry
  pub silent : reported ≡ none
  pub busy_entry : entry.status ≡ some busy
  pub names : entry.current_job_id ≡ some jid
  pub stored : query_row (job_with_id jid) w.db.jobs ≡ some job
  pub assigned_job : job.status ≡ assigned
  pub same_id : x.job_id ≡ job.id
  pub same_epoch : x.assignment_epoch ≡ e

entry_pending :
    (c : CachedState) (e : ℕ) (w : World) (x : JobAssignment) (o : Option Uuid)
    → Heartbeat.is_busy c.status ≡ true
    → c.current_job_id ≡ o
    → (pending_assignment e o w).0 ≡ ok (some x)
    → IsNamed (some c) none e w x
entry_pending c e w x none is_busy is_o h = absurd (unfold pending_assignment pure in cc)
entry_pending c e w x (some jid) is_busy is_o h =
    let (job, stored, is_assigned, job_id, epoch) = job_pending e jid w x h in
    record {
      entry = c;
      jid = jid;
      job = job;
      is_entry = refl;
      silent = refl;
      busy_entry = is_busy_eq c.status is_busy;
      names = is_o;
      stored = stored;
      assigned_job = is_assigned;
      same_id = job_id;
      same_epoch = epoch;
    }

pub pushable_pending :
    (cached : Option CachedState) (reported : Option Uuid) (e : ℕ) (w : World) (x : JobAssignment)
    → (pending_assignment e (pushable cached reported) w).0 ≡ ok (some x)
    → IsNamed cached reported e w x
unfolding pushable pending_assignment pure
pushable_pending none reported e w x h = absurd (cc)
pushable_pending (some c) (some r) e w x h = absurd (cc)
pushable_pending (some c) none e w x h = elim (Bool-cases (Heartbeat.is_busy c.status)) [
  | inr f ↦ absurd (cc (rw f at h))
  | inl t ↦ entry_pending c e w x c.current_job_id t refl (rw t at h)
]

pub accepted_pending :
    (now : Instant) (timeout_seconds : ℕ) (wid : Uuid) (req : HeartbeatRequest) (known : Known)
    (w : World) (resp : HeartbeatResponse)
    → (accept now timeout_seconds wid req known w).0 ≡ ok resp
    → ((pending_assignment known.epoch (pushable known.cached req.current_job_id) w).0
        ≡ ok resp.assignment)
      × (req.epoch ≡ known.epoch)
unfolding accept throw pure
accepted_pending now timeout_seconds wid req known w resp h =
    elim (Bool-cases (req.epoch == known.epoch)) [
      | inr f ↦ absurd (cc (rw f at h))
      | inl t ↦
          let (o, is_o, h1) = bind_ok _ _ w resp (rw t at h) in
          let (u1, is_u1, h2) = bind_ok _ _ _ resp h1 in
          let (u2, is_u2, h3) = bind_ok _ _ _ resp h2 in
          let (u3, is_u3, h4) = bind_ok _ _ _ resp h3 in
          let (u4, is_u4, h5) = bind_ok _ _ _ resp h4 in
          (is_o ∙ ap (λ (r : HeartbeatResponse). ok r.assignment) (ok_eq _ _ h5), ground arith)
    ]
