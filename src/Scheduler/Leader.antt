-- ===== src/Scheduler/Leader.antt =====
-- Leader election, internal/scheduler/leader.go. The advisory lock is Postgres's: it is a parameter.
-- The replicas of the scheduler are numbered; a session of Postgres belongs to one replica's pool.
use fleetforge.Base.{ℕ, Bool, true, false, ◌&&◌, Option, none, some, is_some, if◌then◌else◌}

-- A connection, by its replica and its number in the replica's pool.
abbrev pub Session : Type 0
Session = ℕ × ℕ

-- The lock leaderLockKey in Postgres: pg_try_advisory_lock and pg_advisory_unlock of a session, and
-- what the end of a session does to it.
pub record AdvisoryLock : Type 1 where
  pub State : Type 0
  pub try_lock : Session → State → Bool × State
  pub unlock : Session → State → State
  pub end_session : Session → State → State

-- The fields conn and isLeader of a LeaderElector.
pub record LeaderElector : Type 0 where
  pub conn : Option Session
  pub is_leader : Bool

-- What a check meets: whether the ping is answered, the connection that the pool hands out, if any,
-- and whether the answer to the query arrives.
pub record Check : Type 0 where
  pub ping_ok : Bool
  pub acquired : Option Session
  pub query_ok : Bool

unfoldable pub new_leader_elector : LeaderElector
new_leader_elector = record { conn = none; is_leader = false }

module _ (lock : AdvisoryLock) where
  open lock use {State, try_lock, unlock}

  unfoldable pub lock_scanned :
      Session → Bool → Bool × State → LeaderElector → LeaderElector × State
  lock_scanned s query_ok (acquired, st) le =
      if query_ok
      then (if acquired then (record { conn = some s; is_leader = true }, st) else (le, st))
      else (le, st)

  unfoldable pub acquire_on : Option Session → Bool → LeaderElector → State → LeaderElector × State
  acquire_on none query_ok le st = (le, st)
  acquire_on (some s) query_ok le st = lock_scanned s query_ok (try_lock s st) le

  unfoldable pub try_acquire_or_verify : Check → LeaderElector → State → LeaderElector × State
  unfolding new_leader_elector
  try_acquire_or_verify check le st =
      if is_some le.conn && check.ping_ok
      then (le, st)
      else if is_some le.conn
      then acquire_on check.acquired check.query_ok new_leader_elector st
      else acquire_on check.acquired check.query_ok le st

  unfoldable pub release_conn :
      Option Session → Bool → LeaderElector → State → LeaderElector × State
  release_conn none unlock_ok le st = (le, st)
  release_conn (some s) unlock_ok le st =
      (record { conn = none; is_leader = false }, if unlock_ok then unlock s st else st)

  -- `unlock_ok` is whether the statement, whose error is dropped, gets through.
  unfoldable pub release : Bool → LeaderElector → State → LeaderElector × State
  release unlock_ok le st = release_conn le.conn unlock_ok le st
