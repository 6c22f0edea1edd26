-- ===== src/Agent/Executor.antt =====
-- SimulatedExecutor, worker-agent-runtime/executor.go, and what becomes of its result in runAssignment
-- of cmd/worker-agent/main.go.
use fleetforge.Base.{ℕ, ◌+◌, ◌*◌, ◌%◌, ◌^◌, Bool, true, false, ◌&&◌, [], ◌∷◌, ◌++◌, if◌then◌else◌}
use fleetforge.Base.Int.{ℤ, pos, negsuc}
use fleetforge.Base.Bytes.{Bytes, codes}
use Prim.Native.Nat.{bit_xor}

-- agentruntime.Result.
pub record Outcome : Type 0 where
  pub success : Bool
  pub exit_code : ℤ
  pub log_ref : Bytes
  pub error_message : Bytes

-- hash/fnv's New32a, and the sum after Write.
unfoldable pub fnv_32a : ℕ → Bytes → ℕ
fnv_32a h [] = h
fnv_32a h (b ∷ s) = fnv_32a (bit_xor h b * 16777619 % 2 ^ 32) s

abbrev pub fnv_offset : ℕ
fnv_offset = 2166136261

-- In seconds.
unfoldable pub build_duration : Bytes → ℕ
unfolding fnv_32a
build_duration commit_sha = 3 + fnv_32a fnv_offset commit_sha % 5

-- `cancelled` is whether the context ends before the duration is over, `rate_positive` and
-- `below_rate` compare the failure rate with 0 and with the random draw.
unfoldable pub execute : Bytes → Bool → Bool → Bool → Outcome
execute job_id cancelled rate_positive below_rate =
    if cancelled
    then record {
      success = false;
      exit_code = negsuc 0;
      log_ref = [];
      error_message = codes "cancelled";
    }
    else if rate_positive && below_rate
    then record {
      success = false;
      exit_code = pos 1;
      log_ref = [];
      error_message = codes "simulated build failure";
    }
    else record {
      success = true;
      exit_code = pos 0;
      log_ref = codes "local://simulated/" ++ job_id;
      error_message = [];
    }
