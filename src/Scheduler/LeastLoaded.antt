-- ===== src/Scheduler/LeastLoaded.antt =====
-- The candidate that SelectLeastLoaded picks, internal/scheduler/algorithm.go.
use fleetforge.Base.{
  ◌*◌, ◌^◌, ◌≤◌, ◌<◌, ◌≡◌, refl, sym, ◌⊎◌, subst, Option, none, some, List, [], ◌∷◌, ◌==◌, ltb,
  arith, All, Bool-cases, inl, inr,
}
use mathlib.Core.List.{Mem, mem-cons_self, mem-cons_of_mem}
use native.Mathlib.Nat.{mul-le-mul_left, le_of_mul-le-mul_left, mul_left_comm}
use fleetforge.WorkerStore.Assign.{Candidate}
use fleetforge.Scheduler.Select.{Floats, fraction, better, select_from, select_least_loaded}

-- What the schema and the INTEGER columns say, as far as float64 compares fractions exactly.
abbrev pub IsComparable : Candidate → Type 0
IsComparable c = (c.available_capacity ≤ c.capacity_slots) × (c.capacity_slots ≤ 2 ^ 26)

-- c has no larger share of its slots free than d.
abbrev pub NoFreer : Candidate → Candidate → Type 0
NoFreer c d = c.available_capacity * d.capacity_slots ≤ d.available_capacity * c.capacity_slots

-- IEEE 754: fractions up to 1 with denominators up to 2^26 round to different values unless they
-- are equal, and in the same order.
abbrev pub ComparesExactly : Floats → Type 0
ComparesExactly floats =
    (c d : Candidate)
    → IsComparable c
    → IsComparable d
    → 0 < c.capacity_slots
    → 0 < d.capacity_slots
    → floats.gt (fraction floats c) (fraction floats d)
      ≡ ltb (d.available_capacity * c.capacity_slots) (c.available_capacity * d.capacity_slots)

NoFreer-trans : (b c d : Candidate) → 0 < c.capacity_slots → NoFreer b c → NoFreer c d → NoFreer b d
NoFreer-trans b c d has_slots h k =
    let left = mul-le-mul_left d.capacity_slots h in
    let right = mul-le-mul_left b.capacity_slots k in
    le_of_mul-le-mul_left {k = c.capacity_slots}
      (omega (
        arith,
        left,
        right,
        mul_left_comm d.capacity_slots b.available_capacity c.capacity_slots,
        mul_left_comm d.capacity_slots c.available_capacity b.capacity_slots,
        mul_left_comm b.capacity_slots c.available_capacity d.capacity_slots,
        mul_left_comm b.capacity_slots d.available_capacity c.capacity_slots,
      ))
      has_slots

-- b is one of the candidates, has slots, and none with slots has a larger share of them free.
abbrev pub IsLeastLoaded : Candidate → List Candidate → Type 0
IsLeastLoaded b cs =
    Mem b cs × (0 < b.capacity_slots) × All (λ c. 0 < c.capacity_slots → NoFreer c b) cs

-- No candidate has any slots at all.
abbrev pub NoneHasSlots : List Candidate → Type 0
NoneHasSlots cs = All (λ (c : Candidate). c.capacity_slots ≡ 0) cs

module _ (floats : Floats) (exact : ComparesExactly floats) where
  -- What the rest of the loop makes of a best candidate so far.
  Best : Candidate → List Candidate → Option (Candidate × floats.Float) → Type 0
  Best b cs r =
      (d : Candidate) × (r ≡ some (d, fraction floats d))
      × ((d ≡ b) ⊎ Mem d cs)
      × (0 < d.capacity_slots)
      × NoFreer b d
      × All (λ c. 0 < c.capacity_slots → NoFreer c d) cs

  later :
      {d b : Candidate} {cs : List Candidate} (c : Candidate)
      → (d ≡ b) ⊎ Mem d cs
      → (d ≡ b) ⊎ Mem d (c ∷ cs)
  later c (inl e) = inl e
  later c (inr m) = inr (mem-cons_of_mem c m)

  found_later : {d c : Candidate} {cs : List Candidate} → (d ≡ c) ⊎ Mem d cs → Mem d (c ∷ cs)
  found_later {c} {cs} (inl e) = subst (λ x. Mem x (c ∷ cs)) (sym e) mem-cons_self
  found_later {c} (inr m) = mem-cons_of_mem c m

  Best-of :
      (b : Candidate) (cs : List Candidate)
      → IsComparable b
      → 0 < b.capacity_slots
      → All IsComparable cs
      → Best b cs (select_from floats (some (b, fraction floats b)) cs)
  unfolding select_from better Best
  Best-of b [] comparable has_slots h = (b, refl, inl refl, has_slots, omega arith, tt)
  Best-of b (c ∷ cs) comparable has_slots h = elim (Bool-cases (c.capacity_slots == 0)) [
    | inl zero_slots ↦
        let (d, is_d, found, d_slots, above, best) = Best-of b cs comparable has_slots h.1 in
        rw zero_slots
          (d, is_d, later c found, d_slots, above, (λ slots. absurd (ground arith), best))
    | inr slots ↦
        let c_slots : 0 < c.capacity_slots = ground arith in
        let compared = exact c b h.0 comparable c_slots has_slots in
        elim (Bool-cases (floats.gt (fraction floats c) (fraction floats b))) [
          | inl freer ↦
              let (d, is_d, found, d_slots, above, best) = Best-of c cs h.0 c_slots h.1 in
              let b_below : NoFreer b c = ground arith in
              rw slots (
                rw freer (
                  d,
                  is_d,
                  inr (found_later found),
                  d_slots,
                  NoFreer-trans b c d c_slots b_below above,
                  (λ _. above, best),
                ))
          | inr no_freer ↦
              let (d, is_d, found, d_slots, above, best) = Best-of b cs comparable has_slots h.1 in
              let c_below : NoFreer c b = ground arith in
              rw slots (
                rw no_freer (
                  d,
                  is_d,
                  later c found,
                  d_slots,
                  above,
                  (λ _. NoFreer-trans c b d has_slots c_below above, best),
                ))
        ]
  ]

-- What a correct choice is: `none` only if no candidate has any slots, else a least loaded one.
abbrev pub IsChoice : List Candidate → Option Candidate → Type 0
IsChoice cs none = NoneHasSlots cs
IsChoice cs (some b) = IsLeastLoaded b cs

skip :
    (c : Candidate) (cs : List Candidate) (o : Option Candidate)
    → c.capacity_slots ≡ 0
    → IsChoice cs o
    → IsChoice (c ∷ cs) o
skip c cs none no_slots h = (no_slots, h)
skip c cs (some b) no_slots (m, slots, best) =
    (mem-cons_of_mem c m, slots, (λ has. absurd (omega (arith, no_slots, has)), best))

-- With float64 fractions that compare exactly up to 2^26 slots, at most that many slots each and
-- no more free than there are, SelectLeastLoaded returns a candidate with the largest free share
-- of its slots, and none only if no candidate has slots.
pub select_least_loaded-IsChoice :
    (floats : Floats)
    → ComparesExactly floats
    → (cs : List Candidate) → All IsComparable cs
    → IsChoice cs (select_least_loaded floats cs)
unfolding select_least_loaded select_from better Best
select_least_loaded-IsChoice floats exact [] h = tt
select_least_loaded-IsChoice floats exact (c ∷ cs) h = elim (Bool-cases (c.capacity_slots == 0)) [
  | inl zero_slots ↦
      let no_slots : c.capacity_slots ≡ 0 = ground arith in
      let same : select_least_loaded floats (c ∷ cs) ≡ select_least_loaded floats cs =
        rw (zero_slots, select_least_loaded) refl in
      subst (IsChoice (c ∷ cs)) (sym same) (
        skip c cs (select_least_loaded floats cs) no_slots
          (select_least_loaded-IsChoice floats exact cs h.1))
  | inr slots ↦
      let c_slots : 0 < c.capacity_slots = ground arith in
      let (d, is_d, found, d_slots, above, best) = Best-of floats exact c cs h.0 c_slots h.1 in
      let picked : select_least_loaded floats (c ∷ cs) ≡ some d =
        rw (slots, is_d, select_least_loaded) refl in
      subst (IsChoice (c ∷ cs)) (sym picked)
        (found_later floats exact found, d_slots, (λ _. above, best))
]
