-- ===== src/Consistency/Autoscaling.antt =====
-- The autoscaler keeps what the stores keep, internal/scheduler/autoscaler.go.
use fleetforge.Base.{ℕ, Option, none, some}
use fleetforge.Schema.{Uuid, Instant, WorkerStatus, Db}
use fleetforge.World.{Result, ok, err}
use fleetforge.Effects.{
  Keeps, Keeps-statement, Keeps-command, Keeps-pure, Keeps-attempt, Keeps-bind,
}
use fleetforge.Consistency.Operations.{StoreKeeps}
use fleetforge.Consistency.Loops.{ignore-Keeps, set_state-Keeps}
use fleetforge.WorkerStore.Drain.{DrainResult, count_by_status, pick_drain_candidate}
use fleetforge.JobStore.Create.{count_queued_by_priority}
use fleetforge.RedisStore.Cache.{set_drain_requested}
use fleetforge.RedisStore.Queue.{priorities}
use fleetforge.Scheduler.Select.{Floats}
use fleetforge.Scheduler.Autoscaler.{
  ScaleAction, hold, scale_up, scale_down, AutoscalerConfig, AutoscalerState, total, after_drain,
  drain_picked, do_scale_down, act, tick_with, tick_queued, tick,
}
use fleetforge.Api.Handlers.{sync_drain_to_cache}

module _ (I : Db → Type 0) (kept : StoreKeeps I) where
  module _ (floats : Floats) (cfg : AutoscalerConfig floats.Float) where
    after_drain-Keeps :
        (now : Instant) (s : AutoscalerState) (wid : Uuid) (r : Result (Option DrainResult))
        → Keeps I (after_drain floats cfg now s wid r)
    unfolding after_drain sync_drain_to_cache
    after_drain-Keeps now s wid (err e) = Keeps-pure s
    after_drain-Keeps now s wid (ok none) = Keeps-pure s
    after_drain-Keeps now s wid (ok (some r)) =
        Keeps-bind
          (Keeps-bind (ignore-Keeps (set_state-Keeps wid _))
            (λ _. ignore-Keeps (unfold set_drain_requested in Keeps-command _)))
          (λ _. Keeps-pure _)

    drain_picked-Keeps :
        (now : Instant) (s : AutoscalerState) (r : Result (Option Uuid))
        → Keeps I (drain_picked floats cfg now s r)
    unfolding drain_picked
    drain_picked-Keeps now s (err e) = Keeps-pure s
    drain_picked-Keeps now s (ok none) = Keeps-pure s
    drain_picked-Keeps now s (ok (some wid)) =
        Keeps-bind (Keeps-attempt (kept.request_drain_keeps wid)) (after_drain-Keeps now s wid)

    act-Keeps :
        (now : Instant) (s : AutoscalerState) (a : ScaleAction) → Keeps I (act floats cfg now s a)
    unfolding act do_scale_down
    act-Keeps now s hold = Keeps-pure s
    act-Keeps now s scale_up = Keeps-pure _
    act-Keeps now s scale_down =
        Keeps-bind (Keeps-attempt (unfold pick_drain_candidate in Keeps-statement _ (λ db c. c)))
          (drain_picked-Keeps now s)

    tick_with-Keeps :
        (now : Instant) (s : AutoscalerState) (queued : ℕ) (r : Result (WorkerStatus → ℕ))
        → Keeps I (tick_with floats cfg now s queued r)
    unfolding tick_with
    tick_with-Keeps now s queued (err e) = Keeps-pure s
    tick_with-Keeps now s queued (ok by_status) = act-Keeps now _ _

    tick_queued-Keeps :
        (now : Instant) (s : AutoscalerState) (r : Result (ℕ → ℕ))
        → Keeps I (tick_queued floats cfg now s r)
    unfolding tick_queued
    tick_queued-Keeps now s (err e) = Keeps-pure s
    tick_queued-Keeps now s (ok queued) =
        Keeps-bind (Keeps-attempt (unfold count_by_status in Keeps-statement _ (λ db c. c)))
          (tick_with-Keeps now s (total queued priorities))

    pub tick-Keeps : (now : Instant) (s : AutoscalerState) → Keeps I (tick floats cfg now s)
    unfolding tick
    tick-Keeps now s =
        Keeps-bind
          (Keeps-attempt (unfold count_queued_by_priority in Keeps-statement _ (λ db c. c)))
          (tick_queued-Keeps now s)
