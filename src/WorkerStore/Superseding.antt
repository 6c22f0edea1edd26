-- ===== src/WorkerStore/Superseding.antt =====
-- The epoch that a registration hands out is the worker's only one: Register,
-- internal/store/postgres/workers.go.
use fleetforge.Base.{
  ℕ, ◌+◌, ◌≡◌, ◌≢◌, refl, sym, ap, subst, ◌∙◌, Bool, true, false, some, List, [], ◌∷◌, arith, All,
  All-map, All-mem, All-updated, query_row, query_row-mem, query_row-none, query_row_sound, update,
  Bool-cases, Option-cases, inl, inr, is_some, found-update, found-count, count-nonzero,
}
use fleetforge.Schema.{Uuid, Instant, Worker, registered, Db}
use fleetforge.World.{World, ok, pure, statement, ◌>>◌}
use fleetforge.Statements.{has_id, has_instance, insert_event}
use fleetforge.Consistency.{Differ, IsConsistent}
use fleetforge.Effects.Steps.{next_ran, begin_func_ran}
use fleetforge.Effects.Values.{ok_eq}
use fleetforge.WorkerStore.Liveness.{reapable}
use fleetforge.WorkerStore.Register.{
  RegisterWorkerParams, RegisteredWorker, passes_checks, new_worker, on_conflict, upsert_worker,
  promote_to_ready, register, default_slots,
}

-- The row has the epoch, and all slots are free.
abbrev pub IsFresh : ℕ → ℕ → Worker → Type 0
IsFresh e slots u = (u.epoch ≡ e) × (u.capacity_slots ≡ slots) × (u.available_capacity ≡ slots)

-- The worker has a row, and every row of it is fresh.
pub record IsCurrent (wid : Uuid) (e slots : ℕ) (ws : List Worker) : Type 0 where
  pub fresh : All (λ u. has_id wid u ≡ true → IsFresh e slots u) ws
  pub listed : is_some (query_row (has_id wid) ws) ≡ true

listed_found :
    (p : Worker → Bool) (ws : List Worker) {w : Worker}
    → query_row p ws ≡ some w
    → is_some (query_row (has_id w.id) ws) ≡ true
listed_found p ws {w} found =
    let own : has_id w.id w ≡ true = ground arith in
    found-count (has_id w.id) (has_id w.id) ws (λ x h. h)
      (count-nonzero (has_id w.id) own ws (query_row-mem p ws found))

only_row :
    (p : Worker → Bool) (ws : List Worker) {w : Worker}
    → Differ (λ (v : Worker). v.id) ws
    → query_row p ws ≡ some w
    → All (λ u. has_id w.id u ≡ true → u ≡ w) ws
unfolding query_row
only_row p [] d h = tt
only_row p (x ∷ xs) {w} d h = elim (Bool-cases (p x)) [
  | inl t ↦
      let same : x ≡ w = ground arith in
      (
        λ own. same,
        subst (λ (v : Worker). All (λ u. has_id v.id u ≡ true → u ≡ v) xs) same
            (All-map xs (λ u differs own. absurd (differs (ground arith))) d.0),
      )
  | inr f ↦
      let found : query_row p xs ≡ some w = ground arith in
      let differs = All-mem (λ (u : Worker). u.id ≢ x.id) xs d.0 (query_row-mem p xs found) in
      (λ own. absurd (differs (ground arith)), only_row p xs d.1 found)
]

module _ (new_id : Uuid) (now : Instant) (p : RegisterWorkerParams) where
  renewed :
      (w : Worker) (ws : List Worker)
      → Differ (λ (v : Worker). v.id) ws
      → query_row (has_instance p.instance_id) ws ≡ some w
      → IsCurrent w.id
          (w.epoch + 1)
          (default_slots p.capacity_slots)
          (update (has_instance p.instance_id) (on_conflict p) ws)
  unfolding on_conflict
  renewed w ws d found =
      let hits = query_row_sound (has_instance p.instance_id) ws found in
      record {
        listed =
            found-update (has_id w.id) (has_instance p.instance_id) (on_conflict p) ws (λ x h. h)
              (listed_found (has_instance p.instance_id) ws found);
        fresh =
            All-updated (λ u. has_id w.id u ≡ true → u ≡ w)
              (λ u. has_id w.id u ≡ true → IsFresh (w.epoch + 1) (default_slots p.capacity_slots) u)
              (has_instance p.instance_id) (on_conflict p) ws
              (λ x only. elim (Bool-cases (has_instance p.instance_id x)) [
                | inl t ↦ rw t (λ own. (ap (λ (v : Worker). v.epoch + 1) (only own), refl, refl))
                | inr f ↦ rw f (λ own. absurd (
                    let same : x ≡ w = only own in
                    let hit : has_instance p.instance_id x ≡ true =
                      subst (λ v. has_instance p.instance_id v ≡ true) (sym same) hits in
                    cc))
              ])
              (only_row (has_instance p.instance_id) ws d found);
      }

  upsert_worker-IsCurrent :
      (db : Db) (r : RegisteredWorker)
      → Differ (λ (v : Worker). v.id) db.workers
      → (upsert_worker new_id now p db).0 ≡ ok r
      → IsCurrent r.id r.epoch
          (default_slots p.capacity_slots)
          (upsert_worker new_id now p db).1.workers
  unfolding upsert_worker
  upsert_worker-IsCurrent db r d h = elim (Bool-cases (passes_checks p)) [
    | inr refused ↦ absurd (cc (rw refused at h))
    | inl passed ↦ elim (Option-cases (query_row (has_instance p.instance_id) db.workers)) [
      | inr (w, old) ↦
          let is_r = ok_eq _ _ (rw (passed, old) at h) in
          rw (passed, old)
            (subst
              (λ (x : RegisteredWorker).
                IsCurrent x.id x.epoch (default_slots p.capacity_slots)
                  (update (has_instance p.instance_id) (on_conflict p) db.workers))
              is_r (renewed w db.workers d old))
      | inl new ↦ elim (Option-cases (query_row (has_id new_id) db.workers)) [
        | inr (w, taken) ↦ absurd (cc (rw (passed, new, taken) at h))
        | inl free ↦
            let is_r = ok_eq _ _ (rw (passed, new, free) at h) in
            rw (passed, new, free)
              (subst
                (λ (x : RegisteredWorker).
                  IsCurrent x.id x.epoch (default_slots p.capacity_slots)
                    (new_worker new_id now p ∷ db.workers))
                is_r
                (unfold new_worker query_row in
                  record {
                    fresh = (
                      (λ own. (refl, refl, refl)),
                      All-map db.workers (λ u apart own. absurd (cc))
                          (query_row-none (has_id new_id) db.workers free),
                    );
                    listed = ground arith;
                  }))
      ]
    ]
  ]

  promote_to_ready-IsCurrent :
      (wid : Uuid) (e slots : ℕ) (db : Db)
      → IsCurrent wid e slots db.workers
      → IsCurrent wid e slots (promote_to_ready now wid db).1.workers
  unfolding promote_to_ready
  promote_to_ready-IsCurrent wid e slots db h = record {
    fresh =
        All-updated (λ u. has_id wid u ≡ true → IsFresh e slots u)
          (λ u. has_id wid u ≡ true → IsFresh e slots u) (has_id wid) _ db.workers
          (λ x current. elim (Bool-cases (has_id wid x)) [
            | inl t ↦ rw t (λ own. current t)
            | inr f ↦ rw f current
          ])
          h.fresh;
    listed = found-update (has_id wid) (has_id wid) _ db.workers (λ x own. own) h.listed;
  }

  promoted :
      (a r : RegisteredWorker) (w : World)
      → IsCurrent a.id a.epoch (default_slots p.capacity_slots) w.db.workers
      → ((statement (insert_event a.id (registered a.epoch p.instance_id))
            >> (statement (promote_to_ready now a.id) >> pure a))
          w).0
        ≡ ok r
      → (a ≡ r)
        × IsCurrent a.id a.epoch
            (default_slots p.capacity_slots)
            ((statement (insert_event a.id (registered a.epoch p.instance_id))
                >> (statement (promote_to_ready now a.id) >> pure a))
              w).1.db.workers
  unfolding insert_event pure
  promoted a r w current h =
      let (_, v, _, db, rest, after) =
        next_ran (insert_event a.id (registered a.epoch p.instance_id))
          (λ _. statement (promote_to_ready now a.id) >> pure a) w r h in
      let (_, u, _, db2, last, after2) =
        next_ran (promote_to_ready now a.id) (λ _. pure a) v r rest in
      let here : IsCurrent a.id a.epoch (default_slots p.capacity_slots) v.db.workers =
        subst (λ (d : Db). IsCurrent a.id a.epoch (default_slots p.capacity_slots) d.workers)
          (sym db) current in
      (
        ok_eq a r last,
        subst (λ (d : Db). IsCurrent a.id a.epoch (default_slots p.capacity_slots) d.workers)
            (sym (after ∙ after2 ∙ db2))
            (promote_to_ready-IsCurrent a.id a.epoch (default_slots p.capacity_slots) v.db here),
      )

  -- After a registration the worker's row has the epoch that it returned and all slots are free.
  pub register-IsCurrent :
      (w : World) (r : RegisteredWorker)
      → IsConsistent w.db
      → (register new_id now p w).0 ≡ ok r
      → IsCurrent r.id r.epoch
          (default_slots p.capacity_slots)
          (register new_id now p w).1.db.workers
  unfolding register
  register-IsCurrent w r c h =
      let (v, same, body, committed) = begin_func_ran _ w r h in
      let (a, u, put, db, rest, after) = next_ran (upsert_worker new_id now p) _ v r body in
      let differ =
        subst (λ (d : Db). Differ (λ (x : Worker). x.id) d.workers) (sym same) c.ids_differ in
      let current : IsCurrent a.id a.epoch (default_slots p.capacity_slots) u.db.workers =
        subst (λ (d : Db). IsCurrent a.id a.epoch (default_slots p.capacity_slots) d.workers)
          (sym db) (upsert_worker-IsCurrent v.db a differ put) in
      let (is_r, last) = promoted a r u current rest in
      subst
        (λ (x : RegisteredWorker).
          IsCurrent x.id x.epoch (default_slots p.capacity_slots)
            (register new_id now p w).1.db.workers)
        is_r
        (subst (λ (d : Db). IsCurrent a.id a.epoch (default_slots p.capacity_slots) d.workers)
          (sym (committed ∙ after)) last)

  -- After a registration no live row has another epoch than the one that it returned.
  pub register-NoneReapable :
      (w : World) (r : RegisteredWorker) (e : ℕ)
      → IsConsistent w.db
      → (register new_id now p w).0 ≡ ok r
      → e ≢ r.epoch
      → All (λ u. reapable r.id e u ≡ false) (register new_id now p w).1.db.workers
  register-NoneReapable w r e c h other =
      All-map (register new_id now p w).1.db.workers
        (λ u current. elim (Bool-cases (reapable r.id e u)) [
          | inr f ↦ f
          | inl t ↦
              let own : has_id r.id u ≡ true = ground arith in
              let is_e : u.epoch ≡ e = ground arith in absurd (other (sym is_e ∙ (current own).0))
        ])
        (register-IsCurrent w r c h).fresh
