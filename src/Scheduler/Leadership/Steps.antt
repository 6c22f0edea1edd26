-- ===== src/Scheduler/Leadership/Steps.antt =====
-- What a check and a release of one replica do to what holds of all, internal/scheduler/leader.go.
use fleetforge.Base.{
  ℕ, ◌≡◌, ◌≢◌, refl, sym, ap, subst, ◌∙◌, Bool, true, false, Option, none, some, is_some,
  Bool-cases, inl, inr,
}
use fleetforge.Scheduler.Leader.{
  Session, AdvisoryLock, LeaderElector, Check, new_leader_elector, lock_scanned, acquire_on,
  try_acquire_or_verify, release_conn, release,
}
use fleetforge.Scheduler.Leadership.{IsExclusive, IsSound}

module _ (lock : AdvisoryLock) (laws : IsExclusive lock) where
  open laws use {Holds, granted, try_keeps, unlock_keeps, end_keeps}

  pub lock_scanned_state :
      (s : Session) (query_ok : Bool) (answer : Bool × lock.State) (le : LeaderElector)
      → (lock_scanned lock s query_ok answer le).1 ≡ answer.1
  unfolding lock_scanned
  lock_scanned_state s false answer le = refl
  lock_scanned_state s true (false, st) le = refl
  lock_scanned_state s true (true, st) le = refl

  acquire_keeps :
      (o : Option Session) (query_ok : Bool) (le : LeaderElector) {t : Session} {st : lock.State}
      → Holds t st
      → Holds t (acquire_on lock o query_ok le st).1
  unfolding acquire_on
  acquire_keeps none query_ok le h = h
  acquire_keeps (some s) query_ok le {t} {st} h =
      subst (Holds t) (sym (lock_scanned_state s query_ok (lock.try_lock s st) le)) (try_keeps h)

  is_some-none : (o : Option Session) → is_some o ≡ false → o ≡ none
  is_some-none none e = refl
  is_some-none (some s) e = absurd (cc)

  pub check_keeps :
      (check : Check) (le : LeaderElector) {t : Session} {st : lock.State}
      → Holds t st
      → Holds t (try_acquire_or_verify lock check le st).1
  unfolding try_acquire_or_verify
  check_keeps check le h = elim (Bool-cases (is_some le.conn)) [
    | inr e ↦ rw e (acquire_keeps check.acquired check.query_ok le h)
    | inl e ↦ elim (Bool-cases check.ping_ok) [
      | inl p ↦ rw (e, p) h
      | inr p ↦ rw (e, p) (acquire_keeps check.acquired check.query_ok new_leader_elector h)
    ]
  ]

  pub release_keeps :
      (unlock_ok : Bool) (o : Option Session) (le : LeaderElector) {t : Session} {st : lock.State}
      → o ≢ some t
      → Holds t st
      → Holds t (release_conn lock o unlock_ok le st).1
  unfolding release_conn
  release_keeps unlock_ok none le other h = h
  release_keeps false (some s) le other h = h
  release_keeps true (some s) le other h = unlock_keeps (λ e. other (ap some e)) h

  module _ (Holds' : Session → Type 0) (ended : Session → Bool) (r : ℕ) where
    vacant :
        (le : LeaderElector) → le.conn ≡ none → le.is_leader ≡ false → IsSound Holds' ended r le
    vacant le no_conn no_lead = record {
      agrees = rw no_conn no_lead;
      own = λ s e. absurd (cc);
      holds = λ s e alive. absurd (cc);
    }

  module _ (ended : Session → Bool) (r : ℕ) (le : LeaderElector) (no_conn : le.conn ≡ none)
      (no_lead : le.is_leader ≡ false) where
    scanned-IsSound :
        (s : Session) (query_ok : Bool) (answer : Bool × lock.State)
        → s.0 ≡ r
        → (answer.0 ≡ true → Holds s answer.1)
        → IsSound
            (λ t. Holds t (lock_scanned lock s query_ok answer le).1)
            ended
            r
            (lock_scanned lock s query_ok answer le).0
    unfolding lock_scanned
    scanned-IsSound s false answer own held = vacant _ ended r le no_conn no_lead
    scanned-IsSound s true (false, st) own held = vacant _ ended r le no_conn no_lead
    scanned-IsSound s true (true, st) own held = record {
      agrees = refl;
      own = λ t e. (let same : s ≡ t = cc in subst (λ x. x.0 ≡ r) same own);
      holds = λ t e alive. (let same : s ≡ t = cc in subst (λ x. Holds x st) same (held refl));
    }

    pub acquire-IsSound :
        (o : Option Session) (query_ok : Bool) (st : lock.State)
        → ((s : Session) → o ≡ some s → s.0 ≡ r)
        → IsSound
            (λ t. Holds t (acquire_on lock o query_ok le st).1)
            ended
            r
            (acquire_on lock o query_ok le st).0
    unfolding acquire_on
    acquire-IsSound none query_ok st own = vacant _ ended r le no_conn no_lead
    acquire-IsSound (some s) query_ok st own =
        scanned-IsSound s query_ok (lock.try_lock s st) (own s refl) (λ e. granted e)

  module _ (ended : Session → Bool) (r : ℕ) (le : LeaderElector) (st : lock.State)
      (sound : IsSound (λ t. Holds t st) ended r le) where
    pub check-IsSound :
        (check : Check)
        → ((s : Session) → check.acquired ≡ some s → s.0 ≡ r)
        → IsSound
            (λ t. Holds t (try_acquire_or_verify lock check le st).1)
            ended
            r
            (try_acquire_or_verify lock check le st).0
    unfolding try_acquire_or_verify new_leader_elector
    check-IsSound check own = elim (Bool-cases (is_some le.conn)) [
      | inr e ↦ rw e (
          acquire-IsSound ended r le (is_some-none le.conn e) (sound.agrees ∙ e) check.acquired
            check.query_ok st own)
      | inl e ↦ elim (Bool-cases check.ping_ok) [
        | inl p ↦ rw (e, p) sound
        | inr p ↦
            rw (e, p)
              (acquire-IsSound ended r new_leader_elector refl refl check.acquired check.query_ok st
                own)
      ]
    ]

    released-IsSound :
        (unlock_ok : Bool) (o : Option Session)
        → le.conn ≡ o
        → IsSound
            (λ t. Holds t (release_conn lock o unlock_ok le st).1)
            ended
            r
            (release_conn lock o unlock_ok le st).0
    unfolding release_conn
    released-IsSound unlock_ok none e = sound
    released-IsSound unlock_ok (some s) e = vacant _ ended r _ refl refl

    pub release-IsSound :
        (unlock_ok : Bool)
        → IsSound
            (λ t. Holds t (release lock unlock_ok le st).1)
            ended
            r
            (release lock unlock_ok le st).0
    unfolding release
    release-IsSound unlock_ok = released-IsSound unlock_ok le.conn refl
