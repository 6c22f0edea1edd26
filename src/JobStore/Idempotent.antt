-- ===== src/JobStore/Idempotent.antt =====
-- What an idempotency key promises, Create of internal/store/postgres/jobs.go.
use fleetforge.Base.{
  ◌≡◌, ◌≢◌, refl, sym, ap, subst, ◌∙◌, Bool, true, false, String, str_eq, str_eq_iff, List, [], ◌∷◌,
  arith, ◌≤◌, All, All-map, select, order_by, IsOrder, Headed, order_by-Headed, mem_select,
  select-nonempty, Bool-cases, inl, inr,
}
use mathlib.Core.List.{Memᴰ}
use fleetforge.Schema.{Uuid, Instant, Job, Db}
use fleetforge.World.{
  World, Result, ok, err, job_not_found, pure, throw, attempt, statement, and_then, ◌>>=◌,
}
use fleetforge.JobStore.Create.{
  CreateJobParams, has_key, new_job, insert_job, newest_first, first_job, get_by_idempotency_key,
  create_after_lookup, create,
}

inserted :
    (new_id : Uuid) (now : Instant) (p : CreateJobParams) (j : Job) (r : Result Job) (v : World)
    → (create_after_lookup new_id now p r v).0 ≡ ok (j, false)
    → (create_after_lookup new_id now p r v).1.db.jobs ≡ new_job new_id now p ∷ v.db.jobs
unfolding create_after_lookup pure throw ◌>>=◌ and_then statement insert_job
inserted new_id now p j (ok existing) v done = absurd (cc)
inserted new_id now p j (err job_not_found) v done = ground arith
inserted new_id now p j (err e) v done = absurd (cc)

newest_first-IsOrder : IsOrder newest_first
newest_first-IsOrder = record {
  itself = λ j. ground arith;
  other = λ h. ground arith;
  chain = λ h k. ground arith;
}

-- A row under the key that was created no earlier than any other.
pub record IsNewest (key : String) (j : Job) (js : List Job) : Type 0 where
  pub listed : Memᴰ j js
  pub under_key : has_key key j ≡ true
  pub newest : All (λ k. k.created_at ≤ j.created_at) (select (has_key key) js)

-- The newest job under the key, with `existed`, or an error if the first call failed.
abbrev pub IsFormer : String → World → Result (Job × Bool) → Type 0
IsFormer key before (ok (j, existed)) = IsNewest key j before.db.jobs × (existed ≡ true)
IsFormer key before (err e) = before.fails before.calls ≡ true

-- Nothing is created.
abbrev pub NothingCreated : String → World → Result (Job × Bool) × World → Type 0
NothingCreated key before (r, v) = (v.db ≡ before.db) × IsFormer key before r

module _ (new_id : Uuid) (now : Instant) (p : CreateJobParams) (key : String) (before : World) where
  after_found :
      (sorted : List Job) (v : World)
      → v.db ≡ before.db
      → Headed newest_first sorted (select (has_key key) before.db.jobs)
      → select (has_key key) before.db.jobs ≢ []
      → NothingCreated key before (create_after_lookup new_id now p (first_job sorted) v)
  unfolding create_after_lookup pure
  after_found [] v kept none_there some_there = absurd (some_there none_there)
  after_found (j ∷ sorted) v kept head some_there =
      let (listed, under_key) = mem_select (has_key key) before.db.jobs head.0 in
      (
        kept,
        (
          record {
            listed = listed;
            under_key = under_key;
            newest = All-map (select (has_key key) before.db.jobs) (λ k first. ground arith) head.1;
          },
          refl,
        ),
      )

  -- The lookup of a key that a row has, and what Create does with it.
  after_lookup :
      select (has_key key) before.db.jobs ≢ []
      → NothingCreated key before (
          create_after_lookup new_id now p
            (get_by_idempotency_key key before).0
            (get_by_idempotency_key key before).1)
  unfolding get_by_idempotency_key statement create_after_lookup throw
  after_lookup some_there = elim (Bool-cases (before.fails before.calls)) [
    | inl t ↦ rw t (refl, t)
    | inr f ↦ rw f (
        after_found (order_by newest_first (select (has_key key) before.db.jobs)) _ refl
          (order_by-Headed newest_first newest_first-IsOrder (select (has_key key) before.db.jobs))
          some_there)
  ]

new_job-has_key :
    (new_id : Uuid) (now : Instant) (p : CreateJobParams)
    → str_eq p.idempotency_key "" ≡ false
    → has_key p.idempotency_key (new_job new_id now p) ≡ true
unfolding new_job
new_job-has_key new_id now p given =
    let same = (str_eq_iff p.idempotency_key p.idempotency_key).1 refl in ground (arith, same)

-- With a key, Create looks the key up first.
with_key :
    (new_id : Uuid) (now : Instant) (p : CreateJobParams) (w : World)
    → str_eq p.idempotency_key "" ≡ false
    → create new_id now p w
      ≡ create_after_lookup new_id now p
          (get_by_idempotency_key p.idempotency_key w).0
          (get_by_idempotency_key p.idempotency_key w).1
unfolding create ◌>>=◌ and_then attempt
with_key new_id now p w given = rw given refl

-- In the database that a Create left when it inserted a job under an idempotency key, a Create
-- with that key changes nothing in the database and returns, with existed, a row that is in the
-- table under the key and that was created no earlier than any other row under it, unless its
-- first call fails: then it returns an error.
pub create-NothingCreated :
    (new_id : Uuid) (now : Instant) (p : CreateJobParams) (j : Job) (w v : World)
    → str_eq p.idempotency_key "" ≡ false
    → (create new_id now p w).0 ≡ ok (j, false)
    → v.db ≡ (create new_id now p w).1.db
    → (next_id : Uuid) (later : Instant) (q : CreateJobParams)
    → q.idempotency_key ≡ p.idempotency_key
    → NothingCreated q.idempotency_key v (create next_id later q v)
create-NothingCreated new_id now p j w v given created next next_id later q same_key =
    let key = p.idempotency_key in
    let first = with_key new_id now p w given in
    let jobs : v.db.jobs ≡ new_job new_id now p ∷ _ =
      ap (λ (db : Db). db.jobs) next
      ∙ ap (λ (r : Result (Job × Bool) × World). r.1.db.jobs) first
      ∙ inserted new_id now p j (get_by_idempotency_key key w).0 (get_by_idempotency_key key w).1
          (sym (ap (λ (r : Result (Job × Bool) × World). r.0) first) ∙ created) in
    let hit : has_key q.idempotency_key (new_job new_id now p) ≡ true =
      rw same_key (new_job-has_key new_id now p given) in
    let there : Memᴰ (new_job new_id now p) v.db.jobs =
      subst (λ js. Memᴰ (new_job new_id now p) js) (sym jobs) (Memᴰ.head refl) in
    let given_again = subst (λ k. str_eq k "" ≡ false) (sym same_key) given in
    subst (NothingCreated q.idempotency_key v) (sym (with_key next_id later q v given_again)) (
      after_lookup next_id later q q.idempotency_key v
        (select-nonempty (has_key q.idempotency_key) hit v.db.jobs there))
