-- ===== src/Api/Router.antt =====
-- RequireScope, internal/api/middleware_auth.go, and the routes of internal/api/router.go, without
-- the text of the replies.
use fleetforge.Base.{ℕ, Bool, ◌==◌, Option, none, some, [], ◌∷◌, if◌then◌else◌}
use fleetforge.Base.Bytes.{Bytes, codes}
use fleetforge.Schema.{Uuid, Instant, WorkerStatus}
use fleetforge.World.{Action, pure, ◌>>=◌}
use fleetforge.JobStore.Create.{ListJobsFilter}
use fleetforge.Auth.Jwt.{
  Library, Verdict, invalid_token, expired_token, valid, has_scope, verify_token,
}
use fleetforge.Api.Handlers.{SubmitJobRequest, submit_job, drain_worker, resume_worker}
use fleetforge.Api.Listing.{serve_workers, serve_job, serve_jobs}

-- strings.CutPrefix.
unfoldable pub cut_prefix : Bytes → Bytes → Option Bytes
cut_prefix [] s = some s
cut_prefix (b ∷ p) [] = none
cut_prefix (b ∷ p) (c ∷ s) = let rest = cut_prefix p s in if b == c then rest else none

abbrev pub bearer : Bytes
bearer = codes "Bearer "

-- ScopeJobsSubmit and ScopeWorkersDrain.
abbrev pub jobs_submit : Bytes
jobs_submit = codes "jobs:submit"

abbrev pub workers_drain : Bytes
workers_drain = codes "workers:drain"

-- The status code of the refusal, or `none` for a request that goes through.
unfoldable pub check_verdict : Bytes → Verdict → Option ℕ
check_verdict scope invalid_token = some 401
check_verdict scope expired_token = some 401
check_verdict scope (valid c) = if has_scope scope c then none else some 403

module _ (lib : Library) (secret : Bytes) where
  unfoldable pub check_bearer : Bytes → Instant → Option Bytes → Option ℕ
  check_bearer scope now none = some 401
  check_bearer scope now (some []) = some 401
  check_bearer scope now (some (b ∷ token)) =
      check_verdict scope (verify_token lib secret now (b ∷ token))

unfoldable pub refuse_or : Option ℕ → Action ℕ → Action ℕ
refuse_or none next = next
refuse_or (some status) next = pure status

-- The handler behind the scope: with an empty secret there is no guard.
unfoldable pub require_scope : Library → Bytes → Bytes → Instant → Bytes → Action ℕ → Action ℕ
require_scope lib [] scope now header next = next
require_scope lib (b ∷ secret) scope now header next =
    refuse_or (check_bearer lib (b ∷ secret) scope now (cut_prefix bearer header)) next

-- The requests that the router knows. `metrics` is answered by the Prometheus library.
pub data Request : Type 0 where
  get_workers : Option WorkerStatus → Request
  post_drain post_resume : Uuid → Request
  post_jobs : Option SubmitJobRequest → Request
  get_jobs : ListJobsFilter → Request
  get_job : Uuid → Request
  metrics healthz : Request
  -- What isReady says of Postgres.
  readyz : (postgres : Bool) → Request

module _ (lib : Library) (secret : Bytes) where
  -- The status code of the reply. `new_id` is the id that a new job gets.
  unfoldable pub serve : Uuid → Instant → Bytes → Request → Action ℕ
  serve new_id now header (get_workers status) = do reply ← serve_workers status; pure (reply.0)
  serve new_id now header (post_drain wid) =
      require_scope lib secret workers_drain now header (drain_worker wid)
  serve new_id now header (post_resume wid) =
      require_scope lib secret workers_drain now header (resume_worker wid)
  serve new_id now header (post_jobs body) =
      require_scope lib secret jobs_submit now header
        (do reply ← submit_job new_id now body; pure (reply.0))
  serve new_id now header (get_jobs f) = do reply ← serve_jobs f; pure (reply.0)
  serve new_id now header (get_job jid) = do reply ← serve_job jid; pure (reply.0)
  serve new_id now header metrics = pure 200
  serve new_id now header healthz = pure 200
  serve new_id now header (readyz postgres) = pure (if postgres then 200 else 503)
