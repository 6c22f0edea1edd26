-- ===== src/Examples/Clients.antt =====
-- The theorems on the agent, the tokens, the configuration and the client, at concrete inputs.
use fleetforge.Base.{
  ℕ, ◌+◌, ◌*◌, ◌%◌, ◌⊎◌, ◌≡◌, refl, Bool, true, false, none, some, [], ◌∷◌, ◌++◌, arith, All,
  str_eq, if◌then◌else◌,
}
use fleetforge.Base.Int.{pos}
use fleetforge.Base.Bytes.{Bytes, codes, join, split}
use fleetforge.World.{World, pure, ok}
use fleetforge.JobStore.Backoff.{second, add_duration}
use fleetforge.Grpc.Heartbeat.{unix}
use fleetforge.Config.Text.{trim_space, is_space}
use fleetforge.WorkerStore.Register.{default_slots}
use fleetforge.Grpc.Proto.{ProtoWorkerStatus, JobAssignment, HeartbeatResponse}
use fleetforge.Agent.{
  initial_state, receive, accepted, start_accepted, start_job, follow_drain, set_draining,
  clear_draining,
}
use fleetforge.Agent.Invariant.{
  Process, Reach, started, start, later, receives, IsCoherent, agent, reach-IsCoherent,
}
use fleetforge.Agent.Draining.{Refuses, draining-Refuses}
use fleetforge.Auth.Base64.{IsByte, encode, decode, decode-encode}
use fleetforge.Auth.Jwt.{Claims, Library, valid, sign_token, verify_token, issue_token, has_text}
use fleetforge.Auth.RoundTrip.{IsLawful, verify_token-sign_token}
use fleetforge.Auth.Soundness.{IsAuthentic, verify_token-IsAuthentic}
use fleetforge.Api.Router.{bearer, jobs_submit, workers_drain, post_drain, serve, require_scope}
use fleetforge.Api.Guarded.{IsAuthorized, Refused, serve-IsAuthorized}
use fleetforge.Config.Load.{
  Env, comma, parse_list, parse_labels, filled, load_worker_agent_config, WorkerAgentConfig,
}
use fleetforge.Config.Lists.{IsItem, parse_list-join, parse_list-IsItem}
use fleetforge.Config.Labels.{label_at, last_value, label_at-parse_labels}
use fleetforge.Config.Usable.{IsRunnable, load_worker_agent_config-IsRunnable}
use fleetforge.Ctl.{mint_token, mint_with, mint_scopes, issued, worker_request}
use fleetforge.Ctl.Minted.{minted_claims, require_scope-mint_token}
use fleetforge.Base.{count, query_row}
use fleetforge.Schema.{busy}
use fleetforge.Config.Text.{atoi, digits_value}
use fleetforge.Config.Load.{
  reject_if, get_env_default, get_env_int_default, ◌>>=◌, int_of, failure_rate,
}
use fleetforge.RedisStore.Cache.{read_hash}
use fleetforge.Effects.Values.{Returns}
use fleetforge.Metrics.{Gauges, collect}
use fleetforge.Metrics.Totals.{sum_below, statuses_sum, collect_totals}
use fleetforge.Agent.{AgentState, heartbeat}
use fleetforge.Agent.HandOver.{IsAssignedTo, assignment_of, pushes, handle_heartbeat-hands_over}
use fleetforge.Grpc.Heartbeat.{handle_heartbeat}
use fleetforge.Grpc.Pushing.{IsPending, handle_heartbeat-IsPending}
use fleetforge.Examples.Fleet.{fleet, db_with, held_job}

abbrev build : JobAssignment
build = record {
  job_id = 5;
  assignment_epoch = 1;
  repository = "r";
  branch = "main";
  commit_sha = "c";
}

-- The response that hands the build over, in which the drain flag is as given.
abbrev response : Bool → HeartbeatResponse
response drain = record { acknowledged = true; assignment = some build; drain_requested = drain }

-- An agent with one slot that executes the build, and drains if it was asked for.
abbrev busy_agent : Bool → Process
busy_agent drain = record {
  state = agent ProtoWorkerStatus.busy (some 5) (pos 0) drain;
  running = build ∷ [];
}

busy_agent-Reach : (drain : Bool) → Reach (pos 1) (busy_agent drain)
unfolding initial_state receive accepted start_accepted start_job follow_drain set_draining
    clear_draining
busy_agent-Reach true = later {p = started (pos 1)} start (receives (response true) refl refl)
busy_agent-Reach false = later {p = started (pos 1)} start (receives (response false) refl refl)

reach-IsCoherent_example : IsCoherent (default_slots (pos 1)) (busy_agent true)
reach-IsCoherent_example = reach-IsCoherent (pos 1) (busy_agent true) (busy_agent-Reach true)

draining-Refuses_example : Refuses (default_slots (pos 1)) (busy_agent true).state
draining-Refuses_example = draining-Refuses (pos 1) (busy_agent true) (busy_agent-Reach true) refl

decode-encode_example : decode (encode (codes "fleet")) ≡ some (codes "fleet")
decode-encode_example =
    decode-encode (codes "fleet")
      (omega arith, (omega arith, (omega arith, (omega arith, (omega arith, tt)))))

abbrev sample_claims : Claims
sample_claims = record {
  subject = codes "ci";
  scopes = jobs_submit ∷ workers_drain ∷ [];
  issued_at = pos 0;
  expires_at = pos 3600;
}

low_bytes : Bytes → Bytes
low_bytes [] = []
low_bytes (c ∷ s) = (c % 256) ∷ low_bytes s

low_bytes-IsByte : (s : Bytes) → All IsByte (low_bytes s)
unfolding low_bytes
low_bytes-IsByte [] = tt
low_bytes-IsByte (c ∷ s) = (omega arith, low_bytes-IsByte s)

-- A library that knows one list of claims.
abbrev toy_library : Claims → Library
toy_library c = record {
  hmac = λ secret input. low_bytes (secret ++ input);
  header = codes "{}";
  marshal = λ d. codes "{c}";
  unmarshal = λ s. some c;
}

toy_library-IsLawful : (c : Claims) → IsLawful (toy_library c) c
toy_library-IsLawful c = record {
  hmac_bytes = λ secret input. low_bytes-IsByte (secret ++ input);
  marshal_bytes = (omega arith, (omega arith, (omega arith, tt)));
  unmarshal_marshal = refl;
}

abbrev library : Library
library = toy_library sample_claims

abbrev secret_text : Bytes
secret_text = codes "s3cret"

abbrev sample_token : Bytes
sample_token = sign_token library secret_text sample_claims

verify_token-sign_token_example :
    verify_token library secret_text 1 sample_token ≡ valid sample_claims
unfolding unix
verify_token-sign_token_example =
    verify_token-sign_token library secret_text sample_claims (toy_library-IsLawful sample_claims) 1

verify_token-IsAuthentic_example : IsAuthentic library secret_text 1 sample_token sample_claims
verify_token-IsAuthentic_example =
    verify_token-IsAuthentic library secret_text 1 sample_claims sample_token
      verify_token-sign_token_example

serve-IsAuthorized_example :
    IsAuthorized library secret_text 1 (bearer ++ sample_token) workers_drain
    ⊎ Refused (serve library secret_text 9 1 (bearer ++ sample_token) (post_drain 7)) fleet
serve-IsAuthorized_example =
    serve-IsAuthorized library b's' (codes "3cret") 9 1 (bearer ++ sample_token) (post_drain 7)
      workers_drain fleet refl

-- What the client signs on 1970-01-01, with the flag --ttl 1h.
abbrev epoch_start : ℕ
epoch_start = 62_135_596_800 * second

abbrev signed_claims : Claims
signed_claims = minted_claims (codes "ci") (jobs_submit ∷ []) (pos (3600 * second)) epoch_start

abbrev environment : Env
environment key = if str_eq key "FLEETFORGE_JWT_SECRET" then secret_text else []

abbrev minted_token : Bytes
minted_token = sign_token (toy_library signed_claims) secret_text signed_claims

require_scope-mint_token_example :
    require_scope
      (toy_library signed_claims)
      secret_text
      jobs_submit
      (epoch_start + second)
      (worker_request
        (codes "http://localhost:8080")
        minted_token
        (codes "7")
        (codes "drain")).authorization
      (pure 200)
    ≡ pure 200
unfolding mint_token mint_with mint_scopes issue_token issued filled trim_space split has_text
    add_duration unix is_space
require_scope-mint_token_example =
    require_scope-mint_token (toy_library signed_claims) environment [] (codes "ci")
      (codes " jobs:submit ,") (pos (3600 * second)) epoch_start minted_token refl jobs_submit refl
      (toy_library-IsLawful signed_claims) (epoch_start + second) refl
      (codes "http://localhost:8080") (codes "7") (codes "drain") (pure 200)

docker-IsItem : IsItem (codes "docker")
unfolding trim_space is_space
docker-IsItem = record {
  trimmed = refl;
  solid = λ e. cc;
  whole = (refl, (refl, (refl, (refl, (refl, (refl, tt))))));
}

parse_list-join_example :
    parse_list (join comma (codes "docker" ∷ codes "docker" ∷ []))
    ≡ codes "docker" ∷ codes "docker" ∷ []
parse_list-join_example =
    parse_list-join (codes "docker" ∷ codes "docker" ∷ []) (docker-IsItem, (docker-IsItem, tt))

label_at-parse_labels_example :
    label_at (codes "arch") (parse_labels (codes "arch=x, arch = y,z"))
    ≡ last_value (codes "arch") (split comma (codes "arch=x, arch = y,z"))
label_at-parse_labels_example = label_at-parse_labels (codes "arch") (codes "arch=x, arch = y,z")

parse_list-IsItem_example : All IsItem (parse_list (codes " docker ,,go"))
parse_list-IsItem_example = parse_list-IsItem (codes " docker ,,go")

-- The least environment that both binaries start with.
abbrev least : Env
least key =
    if str_eq key "FLEETFORGE_DATABASE_URL"
    then codes "postgres:"
    else if str_eq key "FLEETFORGE_INSTANCE_ID"
    then codes "i-1"
    else if str_eq key "FLEETFORGE_CPU_CORES"
    then codes "4"
    else if str_eq key "FLEETFORGE_MEMORY_MB"
    then codes "8192"
    else []

abbrev agent_config : WorkerAgentConfig ℕ
agent_config = record {
  scheduler_grpc_addr = codes "localhost:9090";
  instance_id = codes "i-1";
  hostname = codes "unknown-host";
  os = codes "linux/amd64";
  cpu_cores = pos 4;
  memory_mb = pos 8192;
  version = codes "0.1.0";
  capacity_slots = pos 1;
  labels = [];
  capabilities = [];
  simulated_failure_rate = 15;
  tls_cert_file = [];
  tls_key_file = [];
  tls_ca_file = [];
}

load_worker_agent_config-IsRunnable_example : IsRunnable agent_config
unfolding load_worker_agent_config reject_if get_env_default get_env_int_default ◌>>=◌ int_of
    failure_rate parse_labels parse_list atoi digits_value
load_worker_agent_config-IsRunnable_example =
    load_worker_agent_config-IsRunnable (λ s. none) 15 none least agent_config refl

collect_totals_example :
    (g' : Gauges) × (collect (record { jobs_queued = λ p. 3; workers_by_status = λ s. 3 }) fleet
      ≡ (ok g', record fleet { calls = 2 }))
    × (sum_below 10 g'.jobs_queued ≡ 1)
    × (statuses_sum g'.workers_by_status ≡ 2)
unfolding count
collect_totals_example =
    collect_totals (record { jobs_queued = λ p. 3; workers_by_status = λ s. 3 }) fleet refl refl
      (omega arith, tt)

-- The fleet after the job was assigned to worker 7.
abbrev assigned_fleet : World
assigned_fleet = record fleet {
  db = db_with held_job;
  redis = record fleet.redis {
    states = λ k. record {
      state = some (record {
        epoch = 2;
        status = busy;
        current_job_id = some 5;
        available_capacity = pos 1;
        last_pg_flush_unix = 0;
      });
      drain_requested = none;
    };
  };
}

abbrev pub idle : AgentState
idle = agent ProtoWorkerStatus.ready none (pos 2) false

assigned_fleet-IsAssignedTo : IsAssignedTo assigned_fleet 7 2 held_job
unfolding query_row read_hash
assigned_fleet-IsAssignedTo = record {
  entry = record {
    epoch = 2;
    status = some busy;
    current_job_id = some 5;
    available_capacity = pos 1;
    drain_requested = false;
    last_pg_flush_unix = 0;
  };
  cached = refl;
  epoch = refl;
  is_busy = refl;
  jid = 5;
  named = refl;
  stored = refl;
  is_assigned = refl;
}

handle_heartbeat-hands_over_example :
    (resp : HeartbeatResponse) × ((handle_heartbeat 200 20 (heartbeat 7 2 idle) assigned_fleet).0
      ≡ ok resp)
    × ((receive resp idle).1 ≡ some (assignment_of 2 held_job))
    × ((receive resp idle).0.current_job_id ≡ some 5)
handle_heartbeat-hands_over_example =
    handle_heartbeat-hands_over 200 20 7 2 held_job assigned_fleet idle assigned_fleet-IsAssignedTo
      refl refl refl refl

idle_beats :
    Returns
      (λ (resp : HeartbeatResponse). resp.assignment ≡ some (assignment_of 2 held_job))
      (handle_heartbeat 200 20 (heartbeat 7 2 idle))
      assigned_fleet
idle_beats =
    pushes 200 20 7 2 held_job assigned_fleet idle assigned_fleet-IsAssignedTo refl refl refl

handle_heartbeat-IsPending_example :
    IsPending assigned_fleet 7 (heartbeat 7 2 idle) (assignment_of 2 held_job)
handle_heartbeat-IsPending_example =
    handle_heartbeat-IsPending 200 20 7 (heartbeat 7 2 idle) assigned_fleet idle_beats.value
      (assignment_of 2 held_job) (unfold heartbeat in refl) idle_beats.is_value idle_beats.satisfies
