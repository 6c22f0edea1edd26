-- ===== src/Consistency/Registration.antt =====
-- Registration keeps the database consistent, whichever of its calls fail.
use fleetforge.Base.{
  zero, suc, ◌<◌, refl, Bool, arith, Bool-cases, Option-cases, inl, inr, query_row,
}
use fleetforge.Base.Int.{ℤ, pos, negsuc}
use fleetforge.Schema.{Uuid, Instant, Worker, Db}
use fleetforge.Statements.{has_id, has_instance}
use fleetforge.Effects.{Keeps, Keeps-statement, Keeps-pure, Keeps-bind, Keeps-begin_func}
use fleetforge.Consistency.{IsConsistent}
use fleetforge.Consistency.Statements.{
  KeepsIdentity, IsConsistent-update_workers, IsConsistent-insert_worker, insert_event-IsConsistent,
}
use fleetforge.WorkerStore.Register.{
  RegisterWorkerParams, default_slots, passes_checks, new_worker, on_conflict, upsert_worker,
  promote_to_ready, register,
}

default_slots_pos : (n : ℤ) → 0 < default_slots n
unfolding default_slots
default_slots_pos (pos zero) = omega arith
default_slots_pos (pos (suc n)) = omega arith
default_slots_pos (negsuc n) = omega arith

on_conflict-KeepsIdentity :
    (p : RegisterWorkerParams) (q : Worker → Bool) → KeepsIdentity q (on_conflict p)
unfolding on_conflict
on_conflict-KeepsIdentity p q = record {
  sound = λ w _ s. ground (arith, default_slots_pos p.capacity_slots);
  same_id = λ w. refl;
  later = λ w. omega arith;
}

upsert_worker-IsConsistent :
    (new_id : Uuid) (now : Instant) (p : RegisterWorkerParams) (db : Db)
    → IsConsistent db
    → IsConsistent (upsert_worker new_id now p db).1
unfolding upsert_worker
upsert_worker-IsConsistent new_id now p db c = elim (Bool-cases (passes_checks p)) [
  | inr refused ↦ rw refused c
  | inl passed ↦
      rw passed (elim (Option-cases (query_row (has_instance p.instance_id) db.workers)) [
        | inr (w, old) ↦ rw old (IsConsistent-update_workers (on_conflict-KeepsIdentity p _) db c)
        | inl new ↦ rw new (elim (Option-cases (query_row (has_id new_id) db.workers)) [
          | inr (w, taken) ↦ rw taken c
          | inl free ↦ rw free (
              IsConsistent-insert_worker _ db
                (unfold new_worker in
                  record {
                    bounded = omega arith;
                    has_slots = default_slots_pos p.capacity_slots;
                    has_epoch = omega arith;
                  })
                (unfold new_worker in free) c)
        ])
      ])
]

promote_to_ready-IsConsistent :
    (now : Instant) (wid : Uuid) (db : Db)
    → IsConsistent db
    → IsConsistent (promote_to_ready now wid db).1
unfolding promote_to_ready
promote_to_ready-IsConsistent now wid db c =
    IsConsistent-update_workers
      (record { sound = λ w _ s. ground arith; same_id = λ w. refl; later = λ w. omega arith }) db c

pub register-IsConsistent :
    (new_id : Uuid) (now : Instant) (p : RegisterWorkerParams)
    → Keeps IsConsistent (register new_id now p)
unfolding register
register-IsConsistent new_id now p = Keeps-begin_func (
    Keeps-bind (Keeps-statement _ (upsert_worker-IsConsistent new_id now p)) λ r.
      Keeps-bind (Keeps-statement _ (insert_event-IsConsistent _ _))
        λ _. Keeps-bind (Keeps-statement _ (promote_to_ready-IsConsistent now _)) λ _. Keeps-pure r)
