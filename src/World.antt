-- ===== src/World.antt =====
-- What an operation of the program acts on, and the effects that the code is written in.
-- Every statement sent to Postgres and every Redis command is a call that may fail: `fails n` says
-- whether the call number `n` does. An operation is an `Action`; it returns Go's result or error.
use fleetforge.Base.{ℕ, ◌+◌, String, Bool, Option, List, [], ◌∷◌, if◌then◌else◌}
use fleetforge.Base.Int.{ℤ}
use fleetforge.Schema.{Uuid, Instant, WorkerStatus, Db}

pub data Error : Type 0 where
  -- A call that did not go through: a connection error, a malformed argument, a violated constraint.
  call_failed : Error
  -- pgx.ErrNoRows.
  no_rows : Error
  -- postgres.ErrJobNotFound.
  job_not_found : Error
  -- errJobAssignRaceLost.
  job_assign_race_lost : Error
  -- The codes of a gRPC status error.
  invalid_argument not_found aborted internal : Error

pub data Result {ℓ} (A : Type ℓ) : Type ℓ where
  ok : A → Result A
  err : Error → Result A

-- The fields of the worker:{id}:state hash that SetState writes, redis/cache.go.
pub record WorkerState : Type 0 where
  pub epoch : ℕ
  pub status : WorkerStatus
  pub current_job_id : Option Uuid
  pub available_capacity : ℤ
  pub last_pg_flush_unix : ℕ

-- The whole hash: its two groups of fields have two writers. With neither there is no hash.
pub record StateHash : Type 0 where
  pub state : Option WorkerState
  pub drain_requested : Option Bool

-- An entry of a Redis stream; `job_id` is `none` where the field is missing or empty.
pub record Message : Type 0 where
  pub number : ℕ
  pub job_id : Option Uuid
  pub required_capabilities : List String

-- A stream with its consumer group: what has not been read yet, and what the one consumer,
-- `scheduler-leader`, has read and not acknowledged.
pub record Stream : Type 0 where
  pub next_number : ℕ
  pub undelivered : List Message
  pub pending : List Message

pub record Redis : Type 0 where
  pub states : Uuid → StateHash
  pub alive_until : Uuid → Option Instant
  pub streams : ℕ → Stream

pub record World : Type 0 where
  pub db : Db
  pub redis : Redis
  pub fails : ℕ → Bool
  pub calls : ℕ

abbrev pub Action : Type 0 → Type 0
Action A = World → Result A × World

module _ {A : Type 0} where
  unfoldable pub pure : A → Action A
  pure a w = (ok a, w)

  unfoldable pub throw : Error → Action A
  throw e w = (err e, w)

  -- `if err != nil { log }`: the caller goes on with the error in hand.
  unfoldable pub attempt : Action A → Action (Result A)
  attempt m w = let (r, w') = m w in (ok r, w')

  -- A statement, alone in its own transaction or inside one.
  unfoldable pub statement : (Db → Result A × Db) → Action A
  statement f w =
      let w' = record w { calls = w.calls + 1 } in
      let (r, db') = f w.db in
      if w.fails w.calls then (err call_failed, w') else (r, record w' { db = db' })

  -- A Redis command.
  unfoldable pub command : (Redis → A × Redis) → Action A
  command f w =
      let w' = record w { calls = w.calls + 1 } in
      let (a, redis') = f w.redis in
      if w.fails w.calls then (err call_failed, w') else (ok a, record w' { redis = redis' })

unfoldable pub and_then : {A B : Type 0} → Result A → (A → Action B) → Action B
and_then (ok a) f w = f a w
and_then (err e) f w = (err e, w)

infixl 5 ◌>>=◌ ◌>>◌
unfoldable pub ◌>>=◌ : {A B : Type 0} → Action A → (A → Action B) → Action B
unfolding and_then
m >>= f = λ w. let (r, w') = m w in and_then r f w'

abbrev pub ◌>>◌ : {A B : Type 0} → Action A → Action B → Action B
m >> k = m >>= λ _. k

-- pgx.BeginFunc: BEGIN, the body, and COMMIT if it returned no error, ROLLBACK if it did or if the
-- COMMIT fails.
unfoldable pub finish : {A : Type 0} → Db → Result A × World → Result A × World
finish before (ok a, w) =
    let w' = record w { calls = w.calls + 1 } in
    if w.fails w.calls then (err call_failed, record w' { db = before }) else (ok a, w')
finish before (err e, w) = (err e, record w { db = before })

unfoldable pub begin_func : {A : Type 0} → Action A → Action A
unfolding finish
begin_func body w =
    let w' = record w { calls = w.calls + 1 } in
    if w.fails w.calls then (err call_failed, w') else finish w.db (body w')

-- A `for` loop whose body may return an error early.
unfoldable pub for_each : {A : Type 0} → List A → (A → Action (Unit {0})) → Action (Unit {0})
for_each [] body = pure tt
for_each (x ∷ xs) body = do body x; for_each xs body
