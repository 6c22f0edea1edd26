-- ===== src/Agent/Invariant.antt =====
-- What holds of an agent at any time, cmd/worker-agent/main.go: the heartbeat's goroutines and those
-- of the executions interleave in any order.
use fleetforge.Base.{
  ℕ, ◌≡◌, refl, sym, ap, subst, Bool, true, false, Option, none, some, List, [], ◌∷◌, if◌then◌else◌,
}
use fleetforge.Base.Int.{ℤ, pos}
use fleetforge.Schema.{Uuid}
use fleetforge.WorkerStore.Register.{default_slots}
use fleetforge.Grpc.Proto.{ProtoWorkerStatus, JobAssignment, HeartbeatResponse}
use fleetforge.Agent.{
  AgentState, initial_state, finish_job, receive, accepted, start_accepted, start_job, follow_drain,
  set_draining, clear_draining,
}

-- The agent with the goroutines that execute an assignment.
pub record Process : Type 0 where
  pub state : AgentState
  pub running : List JobAssignment

abbrev pub add_started : Option JobAssignment → List JobAssignment → List JobAssignment
add_started none xs = xs
add_started (some x) xs = x ∷ xs

-- One execution ends: it is any of those that run.
pub data Ends : List JobAssignment → JobAssignment → List JobAssignment → Type 0 where
  first : (x : JobAssignment) (xs : List JobAssignment) → Ends (x ∷ xs) x xs
  other :
      (y : JobAssignment) {x : JobAssignment} {xs ys : List JobAssignment}
      → Ends xs x ys
      → Ends (y ∷ xs) x (y ∷ ys)

-- The steps of an agent that registered with so many slots.
pub data Step (slots : ℕ) (p q : Process) : Type 0 where
  receives :
      (resp : HeartbeatResponse)
      → q.state ≡ (receive resp p.state).0
      → q.running ≡ add_started (receive resp p.state).1 p.running
      → Step slots p q
  finishes :
      (x : JobAssignment)
      → Ends p.running x q.running
      → q.state ≡ finish_job slots p.state
      → Step slots p q

abbrev pub started : ℤ → Process
started slots = record { state = initial_state slots; running = [] }

pub data Reach (slots : ℤ) : Process → Type 0 where
  start : Reach slots (started slots)
  later : {p q : Process} → Reach slots p → Step (default_slots slots) p q → Reach slots q

-- Idle: nothing runs, all slots are free, and the status says whether a drain is asked for. Busy: one
-- assignment runs, the one that the heartbeats name, and no slot is free.
abbrev pub Matches : ℕ → AgentState → Option Uuid → List JobAssignment → Type 0
Matches slots a none running =
    (running ≡ [])
    × (a.status ≡ (if a.draining then ProtoWorkerStatus.draining else ProtoWorkerStatus.ready))
    × (a.available_capacity ≡ pos slots)
Matches slots a (some jid) running =
    (a.status ≡ ProtoWorkerStatus.busy)
    × (a.available_capacity ≡ pos 0)
    × ((x : JobAssignment) × (running ≡ x ∷ []) × (x.job_id ≡ jid))

abbrev pub IsCoherent : ℕ → Process → Type 0
IsCoherent slots p = Matches slots p.state p.state.current_job_id p.running

abbrev pub agent : ProtoWorkerStatus → Option Uuid → ℤ → Bool → AgentState
agent s j c d = record { status = s; current_job_id = j; available_capacity = c; draining = d }

abbrev process : AgentState → List JobAssignment → Process
process a running = record { state = a; running = running }

module _ (slots : ℕ) (s : ProtoWorkerStatus) (c : ℤ) where
  follow_drain_fields :
      (j : Option Uuid) (d requested : Bool) (running : List JobAssignment)
      → Matches slots (agent s j c d) j running
      → IsCoherent slots (process (follow_drain requested (agent s j c d)) running)
  unfolding follow_drain set_draining clear_draining
  follow_drain_fields none d true running m = (m.0, refl, m.2)
  follow_drain_fields none false false running m = m
  follow_drain_fields none true false running m = (m.0, refl, m.2)
  follow_drain_fields (some jid) d true running m = m
  follow_drain_fields (some jid) false false running m = m
  follow_drain_fields (some jid) true false running m = m

  start_accepted_fields :
      (j : Option Uuid) (d : Bool) (o : Option JobAssignment) (running : List JobAssignment)
      → Matches slots (agent s j c d) j running
      → IsCoherent slots (
          process
            (start_accepted (accepted (agent s j c d) o) (agent s j c d))
            (add_started (accepted (agent s j c d) o) running))
  unfolding start_accepted accepted start_job
  start_accepted_fields j d none running m = m
  start_accepted_fields (some jid) d (some x) running m = m
  start_accepted_fields none true (some x) running m = m
  start_accepted_fields none false (some x) running m =
      (refl, refl, (x, ap (λ (xs : List JobAssignment). x ∷ xs) m.0, refl))

receive-IsCoherent :
    (slots : ℕ) (a : AgentState) (resp : HeartbeatResponse) (running : List JobAssignment)
    → Matches slots a a.current_job_id running
    → IsCoherent slots (process (receive resp a).0 (add_started (receive resp a).1 running))
unfolding receive
receive-IsCoherent slots a resp running m =
    let x = accepted a resp.assignment in
    let b = start_accepted x a in
    follow_drain_fields slots b.status b.available_capacity b.current_job_id b.draining
      resp.drain_requested (add_started x running)
      (start_accepted_fields slots a.status a.available_capacity a.current_job_id a.draining
        resp.assignment running m)

empty_stops : {x : JobAssignment} {ys : List JobAssignment} → Ends [] x ys → ⊥
empty_stops e = elim e [ ]

single_stops : {x y : JobAssignment} {ys : List JobAssignment} → Ends (y ∷ []) x ys → ys ≡ []
single_stops (first x xs) = refl
single_stops (other y e) = absurd (empty_stops e)

finish_fields :
    (slots : ℕ) (s : ProtoWorkerStatus) (c : ℤ) (j : Option Uuid) (d : Bool)
    (running ys : List JobAssignment) (x : JobAssignment)
    → Ends running x ys
    → Matches slots (agent s j c d) j running
    → IsCoherent slots (process (finish_job slots (agent s j c d)) ys)
unfolding finish_job
finish_fields slots s c none d running ys x e m =
    absurd (empty_stops (subst (λ xs. Ends xs x ys) m.0 e))
finish_fields slots s c (some jid) d running ys x e m =
    let (y, one, named) = m.2 in (single_stops (subst (λ xs. Ends xs x ys) one e), refl, refl)

process-eq :
    {a : AgentState} {xs : List JobAssignment} (q : Process)
    → a ≡ q.state
    → xs ≡ q.running
    → process a xs ≡ q
process-eq q state running = λ i. process (state i) (running i)

Step-IsCoherent :
    (slots : ℕ) (p q : Process) → Step slots p q → IsCoherent slots p → IsCoherent slots q
Step-IsCoherent slots p q (receives resp state running) m =
    subst (IsCoherent slots) (process-eq q (sym state) (sym running))
      (receive-IsCoherent slots p.state resp p.running m)
Step-IsCoherent slots p q (finishes x e state) m =
    subst (IsCoherent slots) (process-eq q (sym state) refl) (
      finish_fields slots p.state.status p.state.available_capacity p.state.current_job_id
        p.state.draining p.running q.running x e m)

-- In every state that an agent can reach by responses and by ends of executions it is idle with
-- all slots free, or it executes exactly one assignment, the one that its heartbeats name, with no
-- slot free, however many slots it has.
pub reach-IsCoherent :
    (slots : ℤ) (p : Process) → Reach slots p → IsCoherent (default_slots slots) p
unfolding initial_state
reach-IsCoherent slots p start = (refl, refl, refl)
reach-IsCoherent slots q (later {p} r st) =
    Step-IsCoherent (default_slots slots) p q st (reach-IsCoherent slots p r)
