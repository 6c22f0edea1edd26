-- ===== src/WorkerStore/Draining.antt =====
-- What a drain request promises, internal/store/postgres/workers.go.
use fleetforge.Base.{
  ◌≡◌, ◌≢◌, sym, subst, String, true, false, some, List, [], ◌∷◌, arith, All, All-map,
  All-after_update, map, select, Bool-cases, inl, inr,
}
use fleetforge.Schema.{Uuid, Worker, ready, worker_status_eq, Db, drain_requested}
use fleetforge.World.{
  World, Result, ok, err, no_rows, Action, pure, throw, attempt, statement, begin_func, and_then,
  ◌>>=◌, ◌>>◌,
}
use fleetforge.Effects.{begin_func-eq-ok, begun, statement-eq-ok}
use fleetforge.Statements.{insert_event}
use fleetforge.WorkerStore.Assign.{Candidate, is_candidate, to_candidate, list_ready_candidates}
use fleetforge.WorkerStore.Drain.{
  DrainResult, live_with_id, change_drain, start_draining, forgive_no_rows, drain_transaction,
  request_drain,
}

NotCandidate : Uuid → List String → Worker → Type 0
NotCandidate wid required w = is_candidate required w ≡ true → w.id ≢ wid

none_listed :
    (wid : Uuid) (required : List String) (ws : List Worker)
    → All (NotCandidate wid required) ws
    → All (λ (c : Candidate). c.id ≢ wid) (map to_candidate (select (is_candidate required) ws))
unfolding select NotCandidate
none_listed wid required [] h = tt
none_listed wid required (w ∷ ws) h = elim (Bool-cases (is_candidate required w)) [
  | inl t ↦ rw t (h.0 t, none_listed wid required ws h.1)
  | inr f ↦ rw f (none_listed wid required ws h.1)
]

-- What the transaction's commit left: every row of the worker that is not dead is draining.
Draining : Uuid → Db → Type 0
Draining wid db =
    All (λ w. live_with_id wid w ≡ true → worker_status_eq w.status ready ≡ false) db.workers

change_drains :
    (wid : Uuid) (w : World) (r : DrainResult)
    → ((statement (change_drain wid start_draining) >>= λ r.
          statement (insert_event wid (drain_requested r.epoch)) >> pure r)
        w).0
      ≡ ok r
    → Draining wid
        ((statement (change_drain wid start_draining) >>= λ r.
            statement (insert_event wid (drain_requested r.epoch)) >> pure r)
          w).1.db
unfolding statement ◌>>=◌ and_then change_drain insert_event pure Draining start_draining
change_drains wid w r done =
    let after =
      All-after_update (λ w. live_with_id wid w ≡ true → worker_status_eq w.status ready ≡ false)
        (live_with_id wid) start_draining w.db.workers (λ v hit live. ground arith)
        (λ v miss live. ground arith) in
    ground (arith, after)

Draining-hides :
    (wid : Uuid) (required : List String) (w : World) (cs : List Candidate)
    → Draining wid w.db
    → (list_ready_candidates required w).0 ≡ ok cs
    → All (λ (c : Candidate). c.id ≢ wid) cs
unfolding list_ready_candidates Draining NotCandidate
Draining-hides wid required w cs h listed =
    let none_here =
      none_listed wid required w.db.workers (All-map w.db.workers (λ v d c. hidden v d c) h) in
    let same : map to_candidate (select (is_candidate required) w.db.workers) ≡ cs =
      ground (arith, (statement-eq-ok _ w listed).0) in
    subst (λ ds. All (λ (c : Candidate). c.id ≢ wid) ds) same none_here
  where
    hidden :
        (v : Worker)
        → (live_with_id wid v ≡ true → worker_status_eq v.status ready ≡ false)
        → is_candidate required v ≡ true
        → v.id ≢ wid
    hidden v d c = ground arith

forgiven :
    {r : DrainResult} (result : Result DrainResult) (v : World)
    → (forgive_no_rows result v).0 ≡ ok (some r)
    → (result ≡ ok r) × ((forgive_no_rows result v).1.db ≡ v.db)
unfolding forgive_no_rows pure throw
forgiven (ok a) v h = ground arith
forgiven (err no_rows) v h = absurd (cc)
forgiven (err e) v h = absurd (cc)

drained :
    (wid : Uuid) (w : World) (r : DrainResult)
    → (request_drain wid w).0 ≡ ok (some r)
    → Draining wid (request_drain wid w).1.db
unfolding request_drain drain_transaction ◌>>=◌ and_then attempt
drained wid w r accepted =
    let (committed, same) = forgiven (begin_func body w).0 (begin_func body w).1 accepted in
    let (ran, left) = begin_func-eq-ok body w committed in
    rw same (rw left (change_drains wid (begun w) r ran))
  where
    body : Action DrainResult
    body = statement (change_drain wid start_draining) >>= λ r.
        statement (insert_event wid (drain_requested r.epoch)) >> pure r

-- In the database that an accepted drain request left, the worker is in no list of candidates,
-- whatever capabilities are asked for.
pub request_drain-hides :
    (wid : Uuid) (w v : World) (r : DrainResult)
    → (request_drain wid w).0 ≡ ok (some r)
    → v.db ≡ (request_drain wid w).1.db
    → (required : List String) (cs : List Candidate) → (list_ready_candidates required v).0 ≡ ok cs
    → All (λ (c : Candidate). c.id ≢ wid) cs
request_drain-hides wid w v r accepted next required cs listed =
    Draining-hides wid required v cs (subst (Draining wid) (sym next) (drained wid w r accepted))
      listed
