-- ===== src/Scheduler/Autoscaler.antt =====
-- The autoscaler's decision and its scale-down, internal/scheduler/autoscaler.go.
use fleetforge.Base.{
  ℕ, ◌+◌, ◌-◌, Bool, true, false, ◌&&◌, Option, none, some, List, [], ◌∷◌, ◌++◌, ltb, leb,
  if◌then◌else◌, length,
}
use fleetforge.Base.Int.{pos, leb_ℤ, sub_ℕ}
use fleetforge.Schema.{Uuid, Instant, WorkerStatus, ready, busy}
use fleetforge.World.{Result, ok, err, Action, pure, attempt, ◌>>=◌, ◌>>◌}
use fleetforge.WorkerStore.Drain.{DrainResult, count_by_status, pick_drain_candidate, request_drain}
use fleetforge.JobStore.Create.{count_queued_by_priority}
use fleetforge.RedisStore.Queue.{drop, priorities}
use fleetforge.Scheduler.Select.{Floats}
use fleetforge.Api.Handlers.{sync_drain_to_cache}

pub data ScaleAction : Type 0 where
  hold scale_up scale_down : ScaleAction

-- Durations in nanoseconds.
pub record AutoscalerConfig (Float : Type 0) : Type 0 where
  pub scale_up_threshold_per_worker : Float
  pub scale_down_threshold_per_worker : Float
  pub scale_up_cooldown : ℕ
  pub scale_down_cooldown : ℕ
  pub max_scale_up_fraction : Float
  pub trend_window_samples : ℕ

-- The fields of Autoscaler that change; the zero `time.Time` is instant 0.
pub record AutoscalerState : Type 0 where
  pub queue_depth_samples : List ℕ
  pub last_scale_up : Instant
  pub last_scale_down : Instant

-- `now.Sub(last) >= cooldown`, where Sub stops at the greatest duration.
unfoldable pub cooled_down : Instant → Instant → ℕ → Bool
cooled_down now last cooldown = leb_ℤ (pos cooldown) (
    if ltb 9_223_372_036_854_775_807 (now - last)
    then pos 9_223_372_036_854_775_807
    else sub_ℕ now last)

unfoldable pub record_sample : ℕ → ℕ → List ℕ → List ℕ
record_sample window depth samples =
    let longer = samples ++ depth ∷ [] in
    if ltb window (length longer) then drop (length longer - window) longer else longer

unfoldable pub never_falls : List ℕ → Bool
never_falls [] = true
never_falls (a ∷ []) = true
never_falls (a ∷ b ∷ rest) = leb a b && never_falls (b ∷ rest)

unfoldable pub trend_is_flat_or_rising : ℕ → List ℕ → Bool
trend_is_flat_or_rising window samples =
    if ltb (length samples) window then false else never_falls samples

unfoldable pub total : (ℕ → ℕ) → List ℕ → ℕ
total f [] = 0
total f (p ∷ ps) = f p + total f ps

module _ (floats : Floats) (cfg : AutoscalerConfig floats.Float) where
  open floats use {Float, of_ℕ, div, mul, add, gt, trunc}

  unfoldable pub queued_per_worker : ℕ → ℕ → Float
  queued_per_worker queued fleet_size =
      if ltb 0 fleet_size
      then div (of_ℕ queued) (of_ℕ fleet_size)
      else if ltb 0 queued
      then add cfg.scale_up_threshold_per_worker (of_ℕ 1)
      else of_ℕ 0

  -- The second `switch` of tick, over the samples that include this tick's.
  unfoldable pub decide : Instant → AutoscalerState → ℕ → ℕ → ℕ → ScaleAction
  decide now s queued ready_count busy_count =
      let q = queued_per_worker queued (ready_count + busy_count) in
      if gt q cfg.scale_up_threshold_per_worker
        && trend_is_flat_or_rising cfg.trend_window_samples s.queue_depth_samples
        && cooled_down now s.last_scale_up cfg.scale_up_cooldown
      then scale_up
      else if gt cfg.scale_down_threshold_per_worker q
          && ltb 0 ready_count
          && cooled_down now s.last_scale_down cfg.scale_down_cooldown
      then scale_down
      else hold

  -- The number of workers that doScaleUp recommends.
  unfoldable pub recommended : ℕ → ℕ
  recommended fleet_size =
      let delta = trunc (mul (of_ℕ fleet_size) cfg.max_scale_up_fraction) in
      if ltb delta 1 then 1 else delta

  unfoldable pub after_drain :
      Instant → AutoscalerState → Uuid → Result (Option DrainResult) → Action AutoscalerState
  after_drain now s wid (err e) = pure s
  after_drain now s wid (ok none) = pure s
  after_drain now s wid (ok (some r)) = do
    sync_drain_to_cache wid r true
    pure (record s { last_scale_down = now })

  unfoldable pub drain_picked :
      Instant → AutoscalerState → Result (Option Uuid) → Action AutoscalerState
  drain_picked now s (err e) = pure s
  drain_picked now s (ok none) = pure s
  drain_picked now s (ok (some wid)) = do r ← attempt (request_drain wid); after_drain now s wid r

  unfoldable pub do_scale_down : Instant → AutoscalerState → Action AutoscalerState
  do_scale_down now s = do picked ← attempt pick_drain_candidate; drain_picked now s picked

  unfoldable pub act : Instant → AutoscalerState → ScaleAction → Action AutoscalerState
  act now s hold = pure s
  act now s scale_up = pure (record s { last_scale_up = now })
  act now s scale_down = do_scale_down now s

  unfoldable pub tick_with :
      Instant → AutoscalerState → ℕ → Result (WorkerStatus → ℕ) → Action AutoscalerState
  tick_with now s queued (err e) = pure s
  tick_with now s queued (ok by_status) =
      let s' = record s {
        queue_depth_samples = record_sample cfg.trend_window_samples queued s.queue_depth_samples;
      } in
      act now s' (decide now s' queued (by_status ready) (by_status busy))

  unfoldable pub tick_queued : Instant → AutoscalerState → Result (ℕ → ℕ) → Action AutoscalerState
  tick_queued now s (err e) = pure s
  tick_queued now s (ok queued) = do
    by_status ← attempt count_by_status
    tick_with now s (total queued priorities) by_status

  unfoldable pub tick : Instant → AutoscalerState → Action AutoscalerState
  tick now s = do queued ← attempt count_queued_by_priority; tick_queued now s queued
