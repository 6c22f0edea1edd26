-- ===== src/Deployment/OneActor.antt =====
-- What the replicas of the scheduler do together: whatever an operation of the stores keeps, they keep,
-- and the background loops of one replica act at a time, cmd/scheduler/main.go.
use fleetforge.Base.{ℕ, ◌≡◌, ◌≢◌, refl, Bool, true, false, some, Bool-cases, inl, inr}
use fleetforge.Schema.{Db}
use fleetforge.World.{World}
use fleetforge.Consistency.Operations.{StoreKeeps}
use fleetforge.Consistency.Runs.{Timing, Event, Cluster, step-Keeps}
use fleetforge.Scheduler.Select.{Floats}
use fleetforge.Scheduler.Autoscaler.{AutoscalerConfig}
use fleetforge.Scheduler.Leader.{Session, AdvisoryLock}
use fleetforge.Scheduler.Leadership.{IsExclusive, Reach as Elected}
use fleetforge.Scheduler.Leadership.OneLeader.{IsLiveLeader-unique, leader-conn}
use fleetforge.Deployment.{
  Deployment, Reach, started, acted, checked, released, session_ended, gated_step, act_at, admits,
  is_background, leads, cluster_of,
}

module _ (lock : AdvisoryLock) (floats : Floats) (cfg : AutoscalerConfig floats.Float)
    (timing : Timing) where
  gated_step-Keeps :
      (I : Db → Type 0) (kept : StoreKeeps I) (is_leader : Bool) (e : Event) (c : Cluster)
      → I c.world.db
      → I (gated_step lock floats cfg timing is_leader e c).world.db
  unfolding gated_step
  gated_step-Keeps I kept is_leader e c h = elim (Bool-cases (admits is_leader e)) [
    | inl on ↦ rw on (step-Keeps floats cfg timing I kept e c h)
    | inr off ↦ rw off h
  ]

  -- What every operation of the stores keeps, the replicas keep together, whichever of them lead.
  pub reach-Keeps :
      (I : Db → Type 0) (kept : StoreKeeps I) {w : World} {d : Deployment lock}
      → I w.db
      → Reach lock floats cfg timing w d
      → I d.world.db
  reach-Keeps I kept h (started st autoscalers) = h
  reach-Keeps I kept h (acted {d} r e before) =
      gated_step-Keeps I kept (leads r d) e (cluster_of r d) (reach-Keeps I kept h before)
  reach-Keeps I kept h (checked r check before possible) = reach-Keeps I kept h before
  reach-Keeps I kept h (released r unlock_ok before) = reach-Keeps I kept h before
  reach-Keeps I kept h (session_ended s before) = reach-Keeps I kept h before

  reach-Elected :
      {w : World} {d : Deployment lock} → Reach lock floats cfg timing w d → Elected lock d.electors
  reach-Elected (started st autoscalers) = Elected.start st
  reach-Elected (acted r e before) = reach-Elected before
  reach-Elected (checked r check before possible) =
      Elected.checked r check (reach-Elected before) possible
  reach-Elected (released r unlock_ok before) = Elected.released r unlock_ok (reach-Elected before)
  reach-Elected (session_ended s before) = Elected.session_ended s (reach-Elected before)

  -- A tick that changes the world is one of a replica that says that it leads.
  gated_step-leads :
      (is_leader : Bool) (e : Event) (c : Cluster)
      → is_background e ≡ true
      → (gated_step lock floats cfg timing is_leader e c).world ≢ c.world
      → is_leader ≡ true
  unfolding gated_step admits
  gated_step-leads true e c tick changes = refl
  gated_step-leads false e c tick changes = absurd (changes (rw tick refl))

  -- The session of the connection that the replica keeps, if any, has not ended.
  abbrev pub IsConnected : ℕ → Deployment lock → Type 0
  IsConnected r d =
      (s : Session) → (d.electors.replicas r).conn ≡ some s → d.electors.ended s ≡ false

  -- Some tick of a background loop of the replica changes the world.
  abbrev pub Acts : ℕ → Deployment lock → Type 0
  Acts r d =
      (e : Event) × (is_background e ≡ true)
      × ((act_at lock floats cfg timing r e d).world ≢ d.world)

  -- With an advisory lock that keeps what Postgres documents, any float64 arithmetic and any
  -- configuration, after any requests and loop ticks of any number of replicas, checks and
  -- shutdowns of their electors and ends of sessions, in any order and whichever calls fail, two
  -- replicas are the same if each has a background tick that makes a call or changes anything and
  -- the session of the connection that it keeps, if any, has not ended.
  pub reach-one_actor :
      (laws : IsExclusive lock) (w : World) (d : Deployment lock) (r q : ℕ)
      → Reach lock floats cfg timing w d
      → Acts r d
      → Acts q d
      → IsConnected r d
      → IsConnected q d
      → r ≡ q
  reach-one_actor laws w d r q reach acts_r acts_q alive_r alive_q =
      let elected = reach-Elected reach in
      let leader = λ (r : ℕ) (acts : Acts r d).
        gated_step-leads (leads r d) acts.0 (cluster_of r d) acts.1 acts.2 in
      let (s, conn_r) = leader-conn lock laws d.electors elected r (leader r acts_r) in
      let (t, conn_q) = leader-conn lock laws d.electors elected q (leader q acts_q) in
      IsLiveLeader-unique lock laws d.electors elected r q s t
        (leader r acts_r, conn_r, alive_r s conn_r) (leader q acts_q, conn_q, alive_q t conn_q)
