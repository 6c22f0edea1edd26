-- ===== src/Agent/Draining.antt =====
-- How an agent follows a drain request and a resume, cmd/worker-agent/main.go.
use fleetforge.Base.{ℕ, ◌≡◌, ◌≢◌, refl, sym, ap, subst, Bool, true, false, Option, none, some, List}
use fleetforge.Base.Int.{ℤ}
use fleetforge.Schema.{Uuid}
use fleetforge.WorkerStore.Register.{default_slots}
use fleetforge.Grpc.Proto.{ProtoWorkerStatus, JobAssignment, HeartbeatResponse}
use fleetforge.Agent.{
  AgentState, finish_job, receive, accepted, follow_drain, set_draining, clear_draining, heartbeat,
}
use fleetforge.Agent.Invariant.{Process, Reach, Matches, agent, reach-IsCoherent}

resume_fields :
    (slots : ℕ) (s : ProtoWorkerStatus) (c : ℤ) (j : Option Uuid) (running : List JobAssignment)
    → Matches slots (agent s j c false) j running
    → clear_draining (set_draining (agent s j c false)) ≡ agent s j c false
unfolding set_draining clear_draining
resume_fields slots s c none running m = ap (λ t. agent t none c false) (sym m.1)
resume_fields slots s c (some jid) running m = refl

-- A drain request that is taken back leaves a reachable agent that was not draining as it was,
-- whether it is idle or busy.
pub clear_draining-set_draining :
    (slots : ℤ) (p : Process)
    → Reach slots p
    → p.state.draining ≡ false
    → clear_draining (set_draining p.state) ≡ p.state
clear_draining-set_draining slots p r not_draining =
    let a = p.state in
    let same : agent a.status a.current_job_id a.available_capacity false ≡ a =
      ap (λ d. agent a.status a.current_job_id a.available_capacity d) (sym not_draining) in
    subst (λ b. clear_draining (set_draining b) ≡ b) same
      (resume_fields (default_slots slots) a.status a.available_capacity a.current_job_id p.running
        (subst (λ b. Matches (default_slots slots) b a.current_job_id p.running) (sym same)
          (reach-IsCoherent slots p r)))

-- What a draining agent does: it does not say that it is READY, it executes nothing new, it keeps
-- draining while the scheduler asks for it, and it does when its execution ends.
abbrev pub Refuses : ℕ → AgentState → Type 0
Refuses slots a =
    ((wid : Uuid) (e : ℕ) → (heartbeat wid e a).status ≢ ProtoWorkerStatus.ready)
    × ((resp : HeartbeatResponse)
        → ((receive resp a).1 ≡ none)
          × (resp.drain_requested ≡ true → (receive resp a).0.draining ≡ true))
    × ((finish_job slots a).draining ≡ true)
    × ((finish_job slots a).status ≡ ProtoWorkerStatus.draining)

drained_rejects :
    (s : ProtoWorkerStatus) (c : ℤ) (j : Option Uuid) (o : Option JobAssignment)
    → accepted (agent s j c true) o ≡ none
unfolding accepted
drained_rejects s c j none = refl
drained_rejects s c none (some x) = refl
drained_rejects s c (some jid) (some x) = refl

keeps_draining :
    (requested : Bool) (a : AgentState)
    → requested ≡ true
    → (follow_drain requested a).draining ≡ true
unfolding follow_drain set_draining
keeps_draining true a h = refl
keeps_draining false a h = absurd (cc)

never_ready :
    (slots : ℕ) (s : ProtoWorkerStatus) (c : ℤ) (j : Option Uuid) (running : List JobAssignment)
    → Matches slots (agent s j c true) j running
    → s ≢ ProtoWorkerStatus.ready
never_ready slots s c none running m = λ h. cc (m.1)
never_ready slots s c (some jid) running m = λ h. cc (m.0)

rejects_fields :
    (slots : ℕ) (s : ProtoWorkerStatus) (c : ℤ) (j : Option Uuid) (running : List JobAssignment)
    → Matches slots (agent s j c true) j running
    → Refuses slots (agent s j c true)
unfolding heartbeat receive finish_job
rejects_fields slots s c j running m = (
  λ wid e. never_ready slots s c j running m,
  λ resp. (drained_rejects s c j resp.assignment, keeps_draining resp.drain_requested _),
  refl,
  refl,
)

-- A reachable agent that is draining never says READY, starts no assignment, keeps draining while
-- the responses ask for it, and says DRAINING when its execution ends.
pub draining-Refuses :
    (slots : ℤ) (p : Process)
    → Reach slots p
    → p.state.draining ≡ true
    → Refuses (default_slots slots) p.state
draining-Refuses slots p r draining =
    let a = p.state in
    let same : agent a.status a.current_job_id a.available_capacity true ≡ a =
      ap (λ d. agent a.status a.current_job_id a.available_capacity d) (sym draining) in
    subst (Refuses (default_slots slots)) same (
      rejects_fields (default_slots slots) a.status a.available_capacity a.current_job_id p.running
        (subst (λ b. Matches (default_slots slots) b a.current_job_id p.running) (sym same)
          (reach-IsCoherent slots p r)))
