-- ===== src/WorkerStore/Idle.antt =====
-- Which worker the autoscaler may drain: PickDrainCandidate, internal/store/postgres/workers.go.
use fleetforge.Base.{
  ◌≤◌, ◌≡◌, refl, sym, ap, subst, ◌∙◌, Bool, true, false, leb, Option, none, some, List, [], ◌∷◌,
  arith, All, All-map, select, order_by, Bool-cases, inl, inr, mem_select, IsOrder, Headed,
  order_by-Headed,
}
use mathlib.Core.List.{Memᴰ}
use fleetforge.Schema.{Uuid, Worker}
use fleetforge.World.{World, ok, statement}
use fleetforge.WorkerStore.Drain.{is_idle, pick_drain_candidate}
use fleetforge.Effects.Values.{ok_eq}

abbrev by_age : Worker → Worker → Bool
by_age v w = leb v.registered_at w.registered_at

module _ (p : Worker → Bool) where
  none_select : (ws : List Worker) → select p ws ≡ [] → All (λ v. p v ≡ false) ws
  unfolding select
  none_select [] h = tt
  none_select (v ∷ ws) h = elim (Bool-cases (p v)) [
    | inl t ↦ absurd (cc (rw t at h))
    | inr f ↦ (f, none_select ws (rw f at h))
  ]

by_age-IsOrder : IsOrder by_age
by_age-IsOrder = record {
  itself = λ v. ground arith;
  other = λ h. ground arith;
  chain = λ h k. ground arith;
}

-- The oldest idle worker by registration, or none only if none is idle.
abbrev pub IsOldestIdle : Option Uuid → List Worker → Type 0
IsOldestIdle none ws = All (λ v. is_idle v ≡ false) ws
IsOldestIdle (some wid) ws =
    (w : Worker) × Memᴰ w ws
    × (w.id ≡ wid)
    × (is_idle w ≡ true)
    × All (λ v. w.registered_at ≤ v.registered_at) (select is_idle ws)

picked : List Worker → Option Uuid
picked [] = none
picked (w ∷ ws) = some w.id

picked_is :
    (sorted : List Worker)
    → elim sorted as (λ _. Option Uuid) [ [] ↦ none | v ∷ vs ↦ some v.id ] ≡ picked sorted
unfolding picked
picked_is [] = refl
picked_is (w ∷ ws) = refl

picked-IsOldestIdle :
    (ws sorted : List Worker)
    → Headed by_age sorted (select is_idle ws)
    → IsOldestIdle (picked sorted) ws
unfolding picked
picked-IsOldestIdle ws [] h = none_select is_idle ws h
picked-IsOldestIdle ws (w ∷ sorted) h =
    let (listed, idle) = mem_select is_idle ws h.0 in
    (w, listed, refl, idle, All-map (select is_idle ws) (λ v first. ground arith) h.1)

-- If PickDrainCandidate answers without an error, it names a worker that is READY, not draining
-- and has all slots free, and that was registered no later than any other such worker, or it names
-- none and there is no such worker; the database is left as it was.
pub pick_drain_candidate-IsOldestIdle :
    (w : World) (o : Option Uuid)
    → (pick_drain_candidate w).0 ≡ ok o
    → IsOldestIdle o w.db.workers × ((pick_drain_candidate w).1.db ≡ w.db)
unfolding pick_drain_candidate statement picked
pick_drain_candidate-IsOldestIdle w o h = elim (Bool-cases (w.fails w.calls)) [
  | inl t ↦ absurd (cc (rw t at h))
  | inr f ↦
      let sorted : List Worker = order_by by_age (select is_idle w.db.workers) in
      let same : picked sorted ≡ o =
        ok_eq (picked sorted) o (ap ok (sym (picked_is sorted)) ∙ (rw f at h)) in
      let oldest : IsOldestIdle (picked sorted) w.db.workers =
        picked-IsOldestIdle w.db.workers sorted
          (order_by-Headed by_age by_age-IsOrder (select is_idle w.db.workers)) in
      (subst (λ x. IsOldestIdle x w.db.workers) same oldest, rw f refl)
]
