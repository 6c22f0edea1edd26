-- ===== src/Scheduler/Leadership/OneLeader.antt =====
-- The replicas have one leader, internal/scheduler/leader.go.
use fleetforge.Base.{
  ℕ, ◌≡◌, ◌≢◌, refl, sym, ap, subst, ◌∙◌, Bool, true, false, ◌&&◌, ◌==◌, Option, none, some,
  is_some, arith, Bool-cases, inl, inr,
}
use fleetforge.Scheduler.Leader.{
  Session, AdvisoryLock, LeaderElector, Check, new_leader_elector, lock_scanned, acquire_on,
  try_acquire_or_verify, release,
}
use fleetforge.Scheduler.Leadership.{
  IsExclusive, Cluster, set_replica, set_ended, IsPossible, check_at, end_at, Reach, start, checked,
  released, session_ended, IsSound, IsLiveLeader,
}
use fleetforge.Scheduler.Leadership.Steps.{
  check_keeps, release_keeps, check-IsSound, release-IsSound,
}

eq_self : (n : ℕ) → (n == n) ≡ true
eq_self n = ground arith

apart : (r q : ℕ) → (q == r) ≡ false → r ≢ q
apart r q e same = ground arith

self : (s : Session) → ((s.0 == s.0) && (s.1 == s.1)) ≡ true
self s = rw (eq_self s.0, eq_self s.1) refl

true-ne-false : true ≢ false
true-ne-false e = absurd (cc)

module _ (lock : AdvisoryLock) (laws : IsExclusive lock) where
  open laws use {Holds, holder_eq, free, end_keeps, end_frees}

  pub AllSound : Cluster lock → Type 0
  AllSound c = (r : ℕ) → IsSound (λ t. Holds t c.lock_state) c.ended r (c.replicas r)

  set_replica-IsSound :
      (H : Session → Type 0) (ended : Session → Bool) (r q : ℕ) (le : LeaderElector)
      (replicas : ℕ → LeaderElector)
      → IsSound H ended r le
      → ((q == r) ≡ false → IsSound H ended q (replicas q))
      → IsSound H ended q (set_replica r le replicas q)
  set_replica-IsSound H ended r q le replicas own others = elim (Bool-cases (q == r)) [
    | inl e ↦ (let same : r ≡ q = ground arith in rw e (subst (λ x. IsSound H ended x le) same own))
    | inr e ↦ rw e (others e)
  ]

  kept :
      (H H' : Session → Type 0) (ended ended' : Session → Bool) (q : ℕ) (le : LeaderElector)
      → IsSound H ended q le
      → ((t : Session) → le.conn ≡ some t → ended' t ≡ false → (ended t ≡ false) × (H t → H' t))
      → IsSound H' ended' q le
  kept H H' ended ended' q le sound keep = record {
    agrees = sound.agrees;
    own = sound.own;
    holds = λ s e alive. (let (was, on) = keep s e alive in on (sound.holds s e was));
  }

  set_ended-false :
      (s t : Session) (ended : Session → Bool)
      → set_ended s ended t ≡ false
      → (ended t ≡ false) × (s ≢ t)
  set_ended-false s t ended h = elim (Bool-cases ((s.0 == t.0) && (s.1 == t.1))) [
    | inl e ↦ absurd (cc (rw e at h))
    | inr e ↦ (
      rw e at h,
      λ same.
          true-ne-false
            (sym (subst (λ x. ((s.0 == x.0) && (s.1 == x.1)) ≡ true) same (self s)) ∙ e),
    )
  ]

  pub Reach-AllSound : {c : Cluster lock} → Reach lock c → AllSound c
  unfolding AllSound new_leader_elector release
  Reach-AllSound (start st) r = record {
    agrees = refl;
    own = λ s e. absurd (cc);
    holds = λ s e alive. absurd (cc);
  }
  Reach-AllSound (checked {c} r check before possible) q =
      set_replica-IsSound _ c.ended r q _ c.replicas
        (check-IsSound lock laws c.ended r (c.replicas r) c.lock_state (Reach-AllSound before r)
          check possible.own)
        (λ e.
          kept _ _ c.ended c.ended q (c.replicas q) (Reach-AllSound before q)
            (λ t is_t alive. (alive, λ h. check_keeps lock laws check (c.replicas r) h)))
  Reach-AllSound (released {c} r unlock_ok before) q =
      set_replica-IsSound _ c.ended r q _ c.replicas
        (release-IsSound lock laws c.ended r (c.replicas r) c.lock_state (Reach-AllSound before r)
          unlock_ok)
        (λ e. kept _ _ c.ended c.ended q (c.replicas q) (Reach-AllSound before q) (λ t is_t alive. (
          alive,
          λ h.
              release_keeps lock laws unlock_ok (c.replicas r).conn (c.replicas r)
                (λ is_r. apart r q e (
                  sym ((Reach-AllSound before r).own t is_r)
                  ∙ (Reach-AllSound before q).own t is_t))
                h,
        )))
  Reach-AllSound (session_ended {c} s before) q =
      kept _ _ c.ended (set_ended s c.ended) q (c.replicas q) (Reach-AllSound before q)
        (λ t is_t alive.
          (let (was, other) = set_ended-false s t c.ended alive in (was, λ h. end_keeps other h)))

  -- With an advisory lock that keeps what Postgres documents, after any checks and shutdowns of
  -- the replicas and ends of sessions, at most one replica says that it leads on a session that
  -- has not ended.
  pub IsLiveLeader-unique :
      (c : Cluster lock)
      → Reach lock c
      → (r q : ℕ) (s t : Session) → IsLiveLeader c r s
      → IsLiveLeader c q t
      → r ≡ q
  unfolding AllSound
  IsLiveLeader-unique c reach r q s t (leads_r, conn_r, alive_r) (leads_q, conn_q, alive_q) =
      let sound_r = Reach-AllSound reach r in
      let sound_q = Reach-AllSound reach q in
      let same : s ≡ t =
        holder_eq (sound_r.holds s conn_r alive_r) (sound_q.holds t conn_q alive_q) in
      sym (sound_r.own s conn_r) ∙ ap (λ x. x.0) same ∙ sound_q.own t conn_q

  some_connection : (o : Option Session) → is_some o ≡ true → (s : Session) × (o ≡ some s)
  some_connection none e = absurd (cc)
  some_connection (some s) e = (s, refl)

  -- A replica that says that it leads keeps a connection.
  pub leader-conn :
      (c : Cluster lock)
      → Reach lock c
      → (r : ℕ) → (c.replicas r).is_leader ≡ true
      → (s : Session) × ((c.replicas r).conn ≡ some s)
  unfolding AllSound
  leader-conn c reach r leads =
      some_connection (c.replicas r).conn (sym (Reach-AllSound reach r).agrees ∙ leads)

  grants :
      (check : Check) (le : LeaderElector) (st : lock.State) (t : Session)
      → check.acquired ≡ some t
      → check.query_ok ≡ true
      → (is_some le.conn ≡ true → check.ping_ok ≡ false)
      → (lock.try_lock t st).0 ≡ true
      → (try_acquire_or_verify lock check le st).0 ≡ record { conn = some t; is_leader = true }
  unfolding try_acquire_or_verify acquire_on lock_scanned
  grants check le st t got answered dropped free_lock = elim (Bool-cases (is_some le.conn)) [
    | inl e ↦ rw (e, dropped e, got, answered, free_lock) refl
    | inr e ↦ rw (e, got, answered, free_lock) refl
  ]

  dropped :
      (c : Cluster lock)
      → Reach lock c
      → (q : ℕ) (s : Session) (check : Check) → Holds s c.lock_state
      → IsPossible (set_ended s c.ended) q (c.replicas q) check
      → (o : Option Session) → (c.replicas q).conn ≡ o
      → is_some o ≡ true
      → check.ping_ok ≡ false
  unfolding AllSound
  dropped c reach q s check held possible none conn_q e = absurd (cc)
  dropped c reach q s check held possible (some u) conn_q e = elim (Bool-cases check.ping_ok) [
    | inr f ↦ f
    | inl p ↦
        let (alive, other) = set_ended-false s u c.ended (possible.pinged u conn_q p) in
        absurd (other (holder_eq held ((Reach-AllSound reach q).holds u conn_q alive)))
  ]

  -- When the session of a leader ends, the next check of any replica whose pool hands out a
  -- connection on which the query is answered makes that replica the leader, without a timeout.
  pub end_at-IsLiveLeader :
      (c : Cluster lock)
      → Reach lock c
      → (r q : ℕ) (s t : Session) (check : Check) → IsLiveLeader c r s
      → IsPossible (set_ended s c.ended) q (c.replicas q) check
      → check.acquired ≡ some t
      → check.query_ok ≡ true
      → IsLiveLeader (check_at lock q check (end_at lock s c)) q t
  unfolding AllSound
  end_at-IsLiveLeader c reach r q s t check (leads_r, conn_r, alive_r) possible got answered =
      let held : Holds s c.lock_state = (Reach-AllSound reach r).holds s conn_r alive_r in
      let nobody : (u : Session) → Holds u (lock.end_session s c.lock_state) → ⊥ =
        λ u h. (let (other, was) = end_frees h in other (holder_eq held was)) in
      let granted_t = free {s = t} nobody in
      let leader =
        grants check (c.replicas q) (lock.end_session s c.lock_state) t got answered
          (dropped c reach q s check held possible (c.replicas q).conn refl) granted_t in
      (rw (eq_self q, leader) refl, rw (eq_self q, leader) refl, possible.answered t got answered)
