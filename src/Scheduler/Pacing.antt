-- ===== src/Scheduler/Pacing.antt =====
-- When the autoscaler acts, and on which worker, internal/scheduler/autoscaler.go.
use fleetforge.Base.{
  ℕ, ◌+◌, ◌≤◌, ◌≡◌, ◌⊎◌, inl, inr, refl, sym, subst, ◌∙◌, Bool, true, Option, none, some, List,
  arith,
}
use fleetforge.Schema.{Uuid, Instant, WorkerStatus, ready, busy, Db}
use fleetforge.World.{World, Result, ok, err, pure, attempt, command, statement, and_then, ◌>>=◌}
use fleetforge.WorkerStore.Drain.{DrainResult, count_by_status, pick_drain_candidate, request_drain}
use fleetforge.WorkerStore.Idle.{IsOldestIdle, pick_drain_candidate-IsOldestIdle}
use fleetforge.JobStore.Create.{count_queued_by_priority}
use fleetforge.RedisStore.Cache.{set_state, set_drain_requested}
use fleetforge.RedisStore.Queue.{priorities}
use fleetforge.Scheduler.Select.{Floats}
use fleetforge.Scheduler.Autoscaler.{
  ScaleAction, hold, scale_up, scale_down, AutoscalerConfig, AutoscalerState, cooled_down, decide,
  total, record_sample, after_drain, drain_picked, do_scale_down, act, tick_with, tick_queued, tick,
}
use fleetforge.Api.Handlers.{sync_drain_to_cache}

cooled :
    (now last : Instant) (cooldown : ℕ)
    → cooled_down now last cooldown ≡ true
    → last + cooldown ≤ now
unfolding cooled_down
cooled now last cooldown h = ground arith

-- An instant that a tick keeps, or sets to its own time once the cooldown is over.
abbrev pub Waits : Instant → ℕ → Instant → Instant → Type 0
Waits now cooldown before after = (after ≡ before) ⊎ ((after ≡ now) × (before + cooldown ≤ now))

-- The drain of the worker that is idle and was registered first.
abbrev pub Drains : Db → Db → Type 0
Drains before after =
    (wid : Uuid) × (u : World) × (u.db ≡ before)
    × IsOldestIdle (some wid) before.workers
    × (after ≡ (request_drain wid u).1.db)

synced :
    (wid : Uuid) (r : DrainResult) (drain : Bool) (w : World)
    → ((sync_drain_to_cache wid r drain w).0 ≡ ok tt)
      × ((sync_drain_to_cache wid r drain w).1.db ≡ w.db)
unfolding sync_drain_to_cache set_state set_drain_requested command attempt ◌>>=◌ and_then pure
synced wid r drain w = (refl, ground arith)

picked_db : (w : World) → (pick_drain_candidate w).1.db ≡ w.db
unfolding pick_drain_candidate statement
picked_db w = ground arith

counted_db : (w : World) → (count_by_status w).1.db ≡ w.db
unfolding count_by_status statement
counted_db w = ground arith

queued_db : (w : World) → (count_queued_by_priority w).1.db ≡ w.db
unfolding count_queued_by_priority statement
queued_db w = ground arith

module _ (floats : Floats) (cfg : AutoscalerConfig floats.Float) (now : Instant)
    (s : AutoscalerState) (before : Db) where
  -- A tick returns no error, keeps to the cooldowns, and changes the database only by a drain.
  pub record IsPaced (x : Result AutoscalerState × World) : Type 0 where
    pub state : AutoscalerState
    pub is_state : x.0 ≡ ok state
    pub up : Waits now cfg.scale_up_cooldown s.last_scale_up state.last_scale_up
    pub down : Waits now cfg.scale_down_cooldown s.last_scale_down state.last_scale_down
    pub drained :
        (x.1.db ≡ before)
        ⊎ ((s.last_scale_down + cfg.scale_down_cooldown ≤ now) × Drains before x.1.db)

  module _ (samples : List ℕ) where
    abbrev sampled : AutoscalerState
    sampled = record s { queue_depth_samples = samples }

    unmoved : (v : World) → v.db ≡ before → IsPaced (ok sampled, v)
    unmoved v same = record {
      state = sampled;
      is_state = refl;
      up = inl refl;
      down = inl refl;
      drained = inl same;
    }

    module _ (over : s.last_scale_down + cfg.scale_down_cooldown ≤ now) where
      after_drain-IsPaced :
          (wid : Uuid) (r : Result (Option DrainResult)) (v : World)
          → Drains before v.db
          → IsPaced (after_drain floats cfg now sampled wid r v)
      unfolding after_drain ◌>>=◌ and_then pure
      after_drain-IsPaced wid (err e) v drains = record {
        state = sampled;
        is_state = refl;
        up = inl refl;
        down = inl refl;
        drained = inr (over, drains);
      }
      after_drain-IsPaced wid (ok none) v drains = record {
        state = sampled;
        is_state = refl;
        up = inl refl;
        down = inl refl;
        drained = inr (over, drains);
      }
      after_drain-IsPaced wid (ok (some r)) v drains =
          let (done, same) = synced wid r true v in
          record {
            state = record sampled { last_scale_down = now };
            is_state = rw done refl;
            up = inl refl;
            down = inr (refl, over);
            drained = inr (over, subst (Drains before) (sym (rw done same)) drains);
          }

      drain_picked-IsPaced :
          (r : Result (Option Uuid)) (v : World)
          → v.db ≡ before
          → ((o : Option Uuid) → r ≡ ok o → IsOldestIdle o before.workers)
          → IsPaced (drain_picked floats cfg now sampled r v)
      unfolding drain_picked ◌>>=◌ and_then attempt pure
      drain_picked-IsPaced (err e) v same picked = unmoved v same
      drain_picked-IsPaced (ok none) v same picked = unmoved v same
      drain_picked-IsPaced (ok (some wid)) v same picked =
          after_drain-IsPaced wid (request_drain wid v).0 (request_drain wid v).1
            (wid, v, same, picked (some wid) refl, refl)

      do_scale_down-IsPaced :
          (v : World) → v.db ≡ before → IsPaced (do_scale_down floats cfg now sampled v)
      unfolding do_scale_down ◌>>=◌ and_then attempt
      do_scale_down-IsPaced v same =
          drain_picked-IsPaced (pick_drain_candidate v).0 (pick_drain_candidate v).1
            (picked_db v ∙ same)
            (λ o h.
              subst (λ (db : Db). IsOldestIdle o db.workers) same
                (pick_drain_candidate-IsOldestIdle v o h).0)

    act-IsPaced :
        (a : ScaleAction) (v : World)
        → v.db ≡ before
        → (a ≡ scale_up → s.last_scale_up + cfg.scale_up_cooldown ≤ now)
        → (a ≡ scale_down → s.last_scale_down + cfg.scale_down_cooldown ≤ now)
        → IsPaced (act floats cfg now sampled a v)
    unfolding act pure
    act-IsPaced hold v same up down = unmoved v same
    act-IsPaced scale_up v same up down = record {
      state = record sampled { last_scale_up = now };
      is_state = refl;
      up = inr (refl, up refl);
      down = inl refl;
      drained = inl same;
    }
    act-IsPaced scale_down v same up down = do_scale_down-IsPaced (down refl) v same

    decided_up :
        (queued ready_count busy_count : ℕ)
        → decide floats cfg now sampled queued ready_count busy_count ≡ scale_up
        → s.last_scale_up + cfg.scale_up_cooldown ≤ now
    unfolding decide
    decided_up queued ready_count busy_count h =
        cooled now s.last_scale_up cfg.scale_up_cooldown (ground arith)

    decided_down :
        (queued ready_count busy_count : ℕ)
        → decide floats cfg now sampled queued ready_count busy_count ≡ scale_down
        → s.last_scale_down + cfg.scale_down_cooldown ≤ now
    unfolding decide
    decided_down queued ready_count busy_count h =
        cooled now s.last_scale_down cfg.scale_down_cooldown (ground arith)

  tick_with-IsPaced :
      (queued : ℕ) (r : Result (WorkerStatus → ℕ)) (v : World)
      → v.db ≡ before
      → IsPaced (tick_with floats cfg now s queued r v)
  unfolding tick_with pure
  tick_with-IsPaced queued (err e) v same = unmoved s.queue_depth_samples v same
  tick_with-IsPaced queued (ok by_status) v same =
      let samples = record_sample cfg.trend_window_samples queued s.queue_depth_samples in
      act-IsPaced samples _ v same
        (λ h. decided_up samples queued (by_status ready) (by_status busy) h)
        (λ h. decided_down samples queued (by_status ready) (by_status busy) h)

  tick_queued-IsPaced :
      (r : Result (ℕ → ℕ)) (v : World) → v.db ≡ before → IsPaced (tick_queued floats cfg now s r v)
  unfolding tick_queued ◌>>=◌ and_then attempt pure
  tick_queued-IsPaced (err e) v same = unmoved s.queue_depth_samples v same
  tick_queued-IsPaced (ok queued) v same =
      tick_with-IsPaced (total queued priorities) (count_by_status v).0 (count_by_status v).1
        (counted_db v ∙ same)

-- With any float64 arithmetic and any configuration, a tick of the autoscaler returns no error; it
-- sets the instant of the last scale-up or scale-down to its own time or keeps it, and sets it
-- only if the cooldown since the former instant is over; it leaves the database as it was, unless
-- the cooldown of the scale-down is over: then it may also drain the worker that was idle and
-- registered first.
pub tick-IsPaced :
    (floats : Floats) (cfg : AutoscalerConfig floats.Float) (now : Instant) (s : AutoscalerState)
    (w : World)
    → IsPaced floats cfg now s w.db (tick floats cfg now s w)
unfolding tick ◌>>=◌ and_then attempt
tick-IsPaced floats cfg now s w =
    tick_queued-IsPaced floats cfg now s w.db (count_queued_by_priority w).0
      (count_queued_by_priority w).1 (queued_db w)
