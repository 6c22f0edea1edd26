-- ===== src/Examples/Replicas.antt =====
-- The theorems on the leader of the replicas, with a concrete lock.
use fleetforge.Base.{
  ℕ, ◌≡◌, ◌≢◌, refl, sym, ap, subst, ◌∙◌, Bool, true, false, ◌==◌, ◌&&◌, Option, none, some, arith,
  Bool-cases, inl, inr, if◌then◌else◌,
}
use fleetforge.Scheduler.Leader.{
  Session, AdvisoryLock, LeaderElector, Check, new_leader_elector, lock_scanned, acquire_on,
  try_acquire_or_verify,
}
use fleetforge.Scheduler.Leadership.{
  IsExclusive, Cluster, IsPossible, check_at, end_at, Reach, start, checked, IsLiveLeader,
}
use fleetforge.Scheduler.Leadership.OneLeader.{IsLiveLeader-unique, end_at-IsLiveLeader}

unfoldable pub session_eq : Session → Session → Bool
session_eq s t = s.0 == t.0 && s.1 == t.1

session_eq-eq : (s t : Session) → session_eq s t ≡ true → s ≡ t
unfolding session_eq
session_eq-eq (a, b) (c, d) h = ground arith

session_eq_refl : (s : Session) → session_eq s s ≡ true
unfolding session_eq
session_eq_refl (a, b) = ground arith

unfoldable pub drop_holder : Session → Option Session → Option Session
drop_holder s none = none
drop_holder s (some t) = if session_eq s t then none else some t

unfoldable pub ask : Session → Option Session → Bool × Option Session
ask s none = (true, some s)
ask s (some t) = (session_eq s t, some t)

-- The lock as the session that holds it.
abbrev pub one_lock : AdvisoryLock
one_lock = record {
  State = Option Session;
  try_lock = ask;
  unlock = drop_holder;
  end_session = drop_holder;
}

drop_keeps : (s t : Session) (st : Option Session) → s ≢ t → st ≡ some t → drop_holder s st ≡ some t
unfolding drop_holder
drop_keeps s t none other h = absurd (cc)
drop_keeps s t (some u) other h = elim (Bool-cases (session_eq s u)) [
  | inl e ↦ (let same : u ≡ t = cc in absurd (other (session_eq-eq s u e ∙ same)))
  | inr e ↦ rw e h
]

drop_frees :
    (s t : Session) (st : Option Session) → drop_holder s st ≡ some t → (s ≢ t) × (st ≡ some t)
unfolding drop_holder
drop_frees s t none h = absurd (cc)
drop_frees s t (some u) h = elim (Bool-cases (session_eq s u)) [
  | inl e ↦ absurd (cc (rw e at h))
  | inr e ↦
      let kept : ◌≡◌ {A = Option Session} (some u) (some t) = rw e at h in
      let same : u ≡ t = cc in (λ both. absurd (cc ((both ∙ sym same), session_eq_refl s)), kept)
]

asked_holds : (s : Session) (st : Option Session) → (ask s st).0 ≡ true → (ask s st).1 ≡ some s
unfolding ask
asked_holds s none h = refl
asked_holds s (some t) h = ap (λ (u : Session). some u) (sym (session_eq-eq s t h))

asked_free :
    (s : Session) (st : Option Session) → ((t : Session) → st ≢ some t) → (ask s st).0 ≡ true
unfolding ask
asked_free s none free = refl
asked_free s (some t) free = absurd (free t refl)

asked_keeps : (s t : Session) (st : Option Session) → st ≡ some t → (ask s st).1 ≡ some t
unfolding ask
asked_keeps s t none h = absurd (cc)
asked_keeps s t (some u) h = h

one_holder : (s t : Session) (st : Option Session) → st ≡ some s → st ≡ some t → s ≡ t
one_holder s t st h k = cc

pub one_lock-IsExclusive : IsExclusive one_lock
one_lock-IsExclusive = record {
  Holds = λ s st. st ≡ some s;
  holder_eq = λ h k. one_holder _ _ _ h k;
  granted = λ h. asked_holds _ _ h;
  free = λ h. asked_free _ _ h;
  try_keeps = λ h. asked_keeps _ _ _ h;
  unlock_keeps = λ other h. drop_keeps _ _ _ other h;
  end_keeps = λ other h. drop_keeps _ _ _ other h;
  end_frees = λ h. drop_frees _ _ _ h;
}

abbrev started : Cluster one_lock
started = record { replicas = λ r. new_leader_elector; ended = λ s. false; lock_state = none }

abbrev pub healthy : Session → Check
healthy s = record { ping_ok = false; acquired = some s; query_ok = true }

abbrev pub replica_session : ℕ → Session
replica_session r = (r, 1)

-- Replica 0 has made its first check.
abbrev led : Cluster one_lock
led = check_at one_lock 0 (healthy (replica_session 0)) started

pub healthy-IsPossible :
    (ended : Session → Bool) (r : ℕ) (le : LeaderElector)
    → ended (replica_session r) ≡ false
    → IsPossible ended r le (healthy (replica_session r))
healthy-IsPossible ended r le alive = record {
  own = λ s h. (let same : replica_session r ≡ s = cc in ap (λ (t : Session). t.0) (sym same));
  answered = λ s h k.
      (let same : replica_session r ≡ s = cc in
        subst (λ (t : Session). ended t ≡ false) same alive);
  pinged = λ s h k. absurd (cc);
}

led-Reach : Reach one_lock led
unfolding new_leader_elector
led-Reach = checked 0 (healthy (replica_session 0)) (start none) (healthy-IsPossible _ 0 _ refl)

led-IsLiveLeader : IsLiveLeader led 0 (replica_session 0)
unfolding try_acquire_or_verify acquire_on lock_scanned new_leader_elector ask
led-IsLiveLeader = (refl, refl, refl)

IsLiveLeader-unique_example : ◌≡◌ {A = ℕ} 0 0
IsLiveLeader-unique_example =
    IsLiveLeader-unique one_lock one_lock-IsExclusive led led-Reach 0 0 (replica_session 0)
      (replica_session 0) led-IsLiveLeader led-IsLiveLeader

end_at-IsLiveLeader_example :
    IsLiveLeader
      (check_at one_lock 1 (healthy (replica_session 1)) (end_at one_lock (replica_session 0) led))
      1
      (replica_session 1)
end_at-IsLiveLeader_example =
    end_at-IsLiveLeader one_lock one_lock-IsExclusive led led-Reach 0 1 (replica_session 0)
      (replica_session 1) (healthy (replica_session 1)) led-IsLiveLeader
      (healthy-IsPossible _ 1 _ refl) refl refl
