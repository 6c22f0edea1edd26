-- ===== src/Grpc/Fencing.antt =====
-- Which reports are applied, internal/grpcserver/report_result.go over internal/store/postgres/jobs.go.
use fleetforge.Base.{ℕ, ◌≡◌, true, false, ◌==◌, ◌&&◌, All, opt_eq}
use fleetforge.Schema.{Uuid, is_held, Db}
use fleetforge.World.{World, Result, ok}
use fleetforge.Grpc.Proto.{ReportJobResultResponse}

-- No row of the job is held under the epoch.
abbrev pub IsStale : Uuid → ℕ → Db → Type 0
IsStale jid e db =
    All (λ j. (j.id == jid && opt_eq j.assignment_epoch e && is_held j.status) ≡ false) db.jobs

-- What discarding a report means: whatever comes back, nothing changed, and an answer says so.
abbrev pub Discarded : Db → Result ReportJobResultResponse × World → Type 0
Discarded before (r, v) =
    (v.db ≡ before)
    × ((resp : ReportJobResultResponse) → r ≡ ok resp → resp.discarded_stale_epoch ≡ true)
