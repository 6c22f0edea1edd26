-- ===== src/Scheduler/Leadership.antt =====
-- The replicas of the scheduler with the advisory lock, internal/scheduler/leader.go.
pub mod Steps
pub mod OneLeader
use fleetforge.Base.{
  ℕ, ◌≡◌, ◌≢◌, refl, sym, ap, subst, ◌∙◌, Bool, true, false, ◌&&◌, ◌==◌, Option, none, some,
  is_some, arith, if◌then◌else◌, Bool-cases, inl, inr,
}
use fleetforge.Scheduler.Leader.{
  Session, AdvisoryLock, LeaderElector, Check, new_leader_elector, lock_scanned, acquire_on,
  try_acquire_or_verify, release_conn, release,
}

-- What Postgres documents of a session-level advisory lock: one session holds it at most; it is
-- granted to the session that asks if none holds it, and then that session holds it; nobody
-- else loses it by a request; it goes when its session unlocks it or ends.
pub record IsExclusive (lock : AdvisoryLock) : Type 1 where
  pub Holds : Session → lock.State → Type 0
  pub holder_eq : {s t : Session} {st : lock.State} → Holds s st → Holds t st → s ≡ t
  pub granted :
      {s : Session} {st : lock.State}
      → (lock.try_lock s st).0 ≡ true
      → Holds s (lock.try_lock s st).1
  pub free :
      {s : Session} {st : lock.State}
      → ((t : Session) → ¬ Holds t st)
      → (lock.try_lock s st).0 ≡ true
  pub try_keeps : {s t : Session} {st : lock.State} → Holds t st → Holds t (lock.try_lock s st).1
  pub unlock_keeps :
      {s t : Session} {st : lock.State} → s ≢ t → Holds t st → Holds t (lock.unlock s st)
  pub end_keeps :
      {s t : Session} {st : lock.State} → s ≢ t → Holds t st → Holds t (lock.end_session s st)
  pub end_frees :
      {s t : Session} {st : lock.State} → Holds t (lock.end_session s st) → (s ≢ t) × Holds t st

-- The replicas, the sessions that have ended, and the lock.
pub record Cluster (lock : AdvisoryLock) : Type 0 where
  pub replicas : ℕ → LeaderElector
  pub ended : Session → Bool
  pub lock_state : lock.State

abbrev pub set_replica : ℕ → LeaderElector → (ℕ → LeaderElector) → ℕ → LeaderElector
set_replica r le replicas q = if q == r then le else replicas q

abbrev pub set_ended : Session → (Session → Bool) → Session → Bool
set_ended s ended t = if (s.0 == t.0) && (s.1 == t.1) then true else ended t

-- A pool hands out its own connections, and Postgres answers only in a session that has not ended.
pub record IsPossible (ended : Session → Bool) (r : ℕ) (le : LeaderElector) (check : Check)
    : Type 0 where
  pub own : (s : Session) → check.acquired ≡ some s → s.0 ≡ r
  pub answered : (s : Session) → check.acquired ≡ some s → check.query_ok ≡ true → ended s ≡ false
  pub pinged : (s : Session) → le.conn ≡ some s → check.ping_ok ≡ true → ended s ≡ false

module _ (lock : AdvisoryLock) where
  abbrev pub check_at : ℕ → Check → Cluster lock → Cluster lock
  check_at r check c =
      let (le, st) = try_acquire_or_verify lock check (c.replicas r) c.lock_state in
      record { replicas = set_replica r le c.replicas; ended = c.ended; lock_state = st }

  abbrev pub release_at : ℕ → Bool → Cluster lock → Cluster lock
  release_at r unlock_ok c =
      let (le, st) = release lock unlock_ok (c.replicas r) c.lock_state in
      record { replicas = set_replica r le c.replicas; ended = c.ended; lock_state = st }

  abbrev pub end_at : Session → Cluster lock → Cluster lock
  end_at s c = record {
    replicas = c.replicas;
    ended = set_ended s c.ended;
    lock_state = lock.end_session s c.lock_state;
  }

  -- The states that checks and shutdowns of the replicas and ends of sessions lead to, in any order.
  pub data Reach : Cluster lock → Type 0 where
    start :
        (st : lock.State)
        → Reach (record { replicas = λ r. new_leader_elector; ended = λ s. false; lock_state = st })
    checked :
        {c : Cluster lock} (r : ℕ) (check : Check)
        → Reach c
        → IsPossible c.ended r (c.replicas r) check
        → Reach (check_at r check c)
    released :
        {c : Cluster lock} (r : ℕ) (unlock_ok : Bool) → Reach c → Reach (release_at r unlock_ok c)
    session_ended : {c : Cluster lock} (s : Session) → Reach c → Reach (end_at s c)

-- A replica says that it leads exactly if it keeps a connection; the connection is its own, and
-- unless its session has ended it holds the lock.
pub record IsSound (Holds : Session → Type 0) (ended : Session → Bool) (r : ℕ) (le : LeaderElector)
    : Type 0 where
  pub agrees : le.is_leader ≡ is_some le.conn
  pub own : (s : Session) → le.conn ≡ some s → s.0 ≡ r
  pub holds : (s : Session) → le.conn ≡ some s → ended s ≡ false → Holds s

-- The replica says that it leads, and the session of its connection has not ended.
abbrev pub IsLiveLeader : {lock : AdvisoryLock} → Cluster lock → ℕ → Session → Type 0
IsLiveLeader c r s =
    ((c.replicas r).is_leader ≡ true) × ((c.replicas r).conn ≡ some s) × (c.ended s ≡ false)
