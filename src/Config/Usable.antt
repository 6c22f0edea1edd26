-- ===== src/Config/Usable.antt =====
-- What a configuration that was loaded is good for, internal/config/config.go.
use fleetforge.Base.{
  ℕ, zero, suc, ◌≤◌, ◌<◌, ◌≡◌, ◌≢◌, refl, subst, String, Bool, true, false, ◌==◌, leb, ltb, Option,
  none, some, [], ◌∷◌, arith, All, Bool-cases, Option-cases, inl, inr,
}
use fleetforge.Base.Int.{ℤ, pos, negsuc, pos_part, neg_part, leb_ℤ}
use fleetforge.Base.Bytes.{Bytes}
use fleetforge.Config.Text.{
  is_empty, int_limit, negate, positive_int, negative_int, some_digits, atoi,
}
use fleetforge.Config.Lists.{IsItem, parse_list-IsItem}
use fleetforge.Config.Load.{
  Env, ConfigError, Loaded, loaded, failed, ◌>>=◌, reject_if, int_of, get_env_int_default,
  SchedulerConfig, load_scheduler_config, WorkerAgentConfig, load_worker_agent_config,
}

-- An int of 64 bits.
abbrev pub IsInt : ℤ → Type 0
IsInt n = (pos_part n < int_limit) × (neg_part n ≤ int_limit)

positive_int-IsInt : (o : Option ℕ) (n : ℤ) → positive_int o ≡ some n → IsInt n
unfolding positive_int
positive_int-IsInt none n h = absurd (cc)
positive_int-IsInt (some m) n h = elim (Bool-cases (ltb m int_limit)) [
  | inl t ↦ (let same : pos m ≡ n = cc (rw t at h) in subst IsInt same (ground arith, omega arith))
  | inr f ↦ absurd (cc (rw f at h))
]

negate-IsInt : (m : ℕ) → m ≤ int_limit → IsInt (negate m)
negate-IsInt zero h = (omega arith, omega arith)
negate-IsInt (suc m) h = (omega arith, h)

negative_int-IsInt : (o : Option ℕ) (n : ℤ) → negative_int o ≡ some n → IsInt n
unfolding negative_int
negative_int-IsInt none n h = absurd (cc)
negative_int-IsInt (some m) n h = elim (Bool-cases (leb m int_limit)) [
  | inl t ↦
      (let same : negate m ≡ n = cc (rw t at h) in subst IsInt same (negate-IsInt m (ground arith)))
  | inr f ↦ absurd (cc (rw f at h))
]

pub atoi-IsInt : (s : Bytes) (n : ℤ) → atoi s ≡ some n → IsInt n
unfolding atoi
atoi-IsInt [] n h = absurd (cc)
atoi-IsInt (c ∷ s) n h = elim (Bool-cases (c == b'+')) [
  | inl t ↦ positive_int-IsInt (some_digits s) n (rw t at h)
  | inr f ↦ elim (Bool-cases (c == b'-')) [
    | inl t ↦ negative_int-IsInt (some_digits s) n (rw (f, t) at h)
    | inr g ↦ positive_int-IsInt (some_digits (c ∷ s)) n (rw (f, g) at h)
  ]
]

setting-IsInt :
    (env : Env) (key : String) (def n : ℤ)
    → IsInt def
    → get_env_int_default env key def ≡ loaded n
    → IsInt n
unfolding get_env_int_default int_of
setting-IsInt env key def n fits h = elim (Bool-cases (is_empty (env key))) [
  | inl t ↦ (let same : def ≡ n = cc (rw t at h) in subst IsInt same fits)
  | inr f ↦ elim (Option-cases (atoi (env key))) [
    | inl e ↦ absurd (cc (rw (f, e) at h))
    | inr (m, e) ↦
        (let same : m ≡ n = cc (rw (f, e) at h) in subst IsInt same (atoi-IsInt (env key) m e))
  ]
]

-- What is loaded, if anything is, satisfies `P`.
pub record Gives {A : Type 0} (P : A → Type 0) (m : Loaded A) : Type 0 where
  pub holds : (a : A) → m ≡ loaded a → P a

Gives-loaded : {A : Type 0} (P : A → Type 0) (a : A) → P a → Gives P (loaded a)
Gives-loaded P a h = record { holds = λ b e. (let same : a ≡ b = cc in subst P same h) }

Gives-bind :
    {A B : Type 0} (P : B → Type 0) (m : Loaded A) (f : A → Loaded B)
    → ((a : A) → m ≡ loaded a → Gives P (f a))
    → Gives P (m >>= f)
unfolding ◌>>=◌
Gives-bind P (loaded a) f h = h a refl
Gives-bind P (failed e) f h = record { holds = λ b e'. absurd (cc) }

reject_if_loaded :
    (t : Bool) (e : ConfigError) (u : Unit {0}) → reject_if t e ≡ loaded u → t ≡ false
unfolding reject_if
reject_if_loaded true e u h = absurd (cc)
reject_if_loaded false e u h = refl

is_empty-false : (s : Bytes) → is_empty s ≡ false → s ≢ []
is_empty-false [] h = absurd (cc)
is_empty-false (c ∷ s) h = λ e. absurd (cc)

pub record IsUsable (c : SchedulerConfig) : Type 0 where
  pub database : c.database_url ≢ []
  pub interval : IsInt c.heartbeat_interval_seconds
  pub timeout : IsInt c.heartbeat_timeout_seconds

-- A scheduler configuration that loads has a database URL, and its heartbeat interval and timeout
-- are within an int64.
pub load_scheduler_config-IsUsable :
    (env : Env) (c : SchedulerConfig) → load_scheduler_config env ≡ loaded c → IsUsable c
unfolding load_scheduler_config
load_scheduler_config-IsUsable env =
    (Gives-bind IsUsable _ _ (λ u required. Gives-bind IsUsable _ _ (λ interval is_interval.
      Gives-bind IsUsable _ _ (λ timeout is_timeout. Gives-loaded IsUsable _ (record {
        database = is_empty-false _ (reject_if_loaded _ _ u required);
        interval = setting-IsInt env _ _ interval (omega arith, omega arith) is_interval;
        timeout = setting-IsInt env _ _ timeout (omega arith, omega arith) is_timeout;
      }))))).holds

positive : (n : ℤ) → leb_ℤ n (pos 0) ≡ false → IsInt n → (0 < pos_part n) × (pos_part n < int_limit)
positive (pos n) h fits = (ground arith, fits.0)
positive (negsuc n) h fits = absurd (ground arith)

module _ {Float : Type 0} where
  -- What an agent needs to run.
  pub record IsRunnable (c : WorkerAgentConfig Float) : Type 0 where
    pub instance : c.instance_id ≢ []
    pub cores : (0 < pos_part c.cpu_cores) × (pos_part c.cpu_cores < int_limit)
    pub memory : (0 < pos_part c.memory_mb) × (pos_part c.memory_mb < int_limit)
    pub slots : IsInt c.capacity_slots
    pub items : All IsItem c.capabilities

  -- A worker configuration that loads has an instance id, positive CPU cores and memory below
  -- 2^63, capacity slots within an int64, and capabilities that are trimmed, not empty and without
  -- a comma.
  pub load_worker_agent_config-IsRunnable :
      (parse_float : Bytes → Option Float) (default_rate : Float) (hostname : Option Bytes)
      (env : Env) (c : WorkerAgentConfig Float)
      → load_worker_agent_config parse_float default_rate hostname env ≡ loaded c
      → IsRunnable c
  unfolding load_worker_agent_config
  load_worker_agent_config-IsRunnable parse_float default_rate hostname env =
      (Gives-bind IsRunnable _ _ (λ u required. Gives-bind IsRunnable _ _ (λ cores is_cores.
        Gives-bind IsRunnable _ _ (λ v some_cores. Gives-bind IsRunnable _ _ (λ memory is_memory.
          Gives-bind IsRunnable _ _ (λ w some_memory. Gives-bind IsRunnable _ _ (λ slots is_slots.
            Gives-bind IsRunnable _ _ (λ rate is_rate. Gives-loaded IsRunnable _ (record {
              instance = is_empty-false _ (reject_if_loaded _ _ u required);
              cores =
                  positive cores (reject_if_loaded _ _ v some_cores)
                    (setting-IsInt env _ _ cores (omega arith, omega arith) is_cores);
              memory =
                  positive memory (reject_if_loaded _ _ w some_memory)
                    (setting-IsInt env _ _ memory (omega arith, omega arith) is_memory);
              slots = setting-IsInt env _ _ slots (omega arith, omega arith) is_slots;
              items = parse_list-IsItem _;
            }))))))))).holds
