-- ===== src/Api/Guarded.antt =====
-- Who may write through the REST API, internal/api/middleware_auth.go and router.go.
use fleetforge.Base.{
  ℕ, ◌≡◌, ◌≢◌, ◌⊎◌, refl, ap, subst, ◌∙◌, true, false, ◌==◌, Option, none, some, [], ◌∷◌, ◌++◌,
  arith, Bool-cases, inl, inr,
}
use fleetforge.Base.Int.{ltb_ℤ, pos}
use fleetforge.Base.Bytes.{Bytes}
use fleetforge.Schema.{Uuid, Instant}
use fleetforge.World.{World, ok, Action, pure}
use fleetforge.Grpc.Heartbeat.{unix}
use fleetforge.Auth.Jwt.{
  Claims, Library, Verdict, invalid_token, expired_token, valid, has_scope, dot, sign_token,
  verify_token,
}
use fleetforge.Auth.RoundTrip.{IsLawful, verify_token-sign_token}
use fleetforge.Auth.Soundness.{IsAuthentic, verify_token-IsAuthentic}
use fleetforge.Api.Router.{
  cut_prefix, bearer, jobs_submit, workers_drain, check_verdict, check_bearer, refuse_or,
  require_scope, Request, get_workers, post_drain, post_resume, post_jobs, get_jobs, get_job,
  metrics, healthz, readyz, serve,
}

-- The scope that a request needs; those that only read need none.
abbrev pub scope_of : Request → Option Bytes
scope_of (post_drain wid) = some workers_drain
scope_of (post_resume wid) = some workers_drain
scope_of (post_jobs body) = some jobs_submit
scope_of _ = none

-- The header is "Bearer " and an authentic token that has the scope.
pub record IsAuthorized (lib : Library) (secret : Bytes) (now : Instant) (header : Bytes)
    (scope : Bytes) : Type 0 where
  pub token : Bytes
  pub claims : Claims
  pub carries : header ≡ bearer ++ token
  pub authentic : IsAuthentic lib secret now token claims
  pub scoped : has_scope scope claims ≡ true

cut_prefix_sound : (p s : Bytes) {t : Bytes} → cut_prefix p s ≡ some t → s ≡ p ++ t
unfolding cut_prefix
cut_prefix_sound [] s h = cc
cut_prefix_sound (b ∷ p) [] h = absurd (cc)
cut_prefix_sound (b ∷ p) (c ∷ s) {t} h = elim (Bool-cases (b == c)) [
  | inl e ↦
      let same : c ≡ b = ground arith in
      let rest : s ≡ p ++ t = cut_prefix_sound p s (rw e at h) in λ i. same i ∷ rest i
  | inr e ↦ absurd (cc (rw e at h))
]

cut_prefix-append : (p t : Bytes) → cut_prefix p (p ++ t) ≡ some t
unfolding cut_prefix
cut_prefix-append [] t = refl
cut_prefix-append (b ∷ p) t = ground (arith, cut_prefix-append p t)

-- The reply is 401 or 403, and nothing has changed.
pub Refused : Action ℕ → World → Type 0
Refused action w = (action w ≡ (ok 401, w)) ⊎ (action w ≡ (ok 403, w))

module _ (lib : Library) (b : ℕ) (rest : Bytes) (now : Instant) (header : Bytes)
    (scope : Bytes) where
  abbrev secret : Bytes
  secret = b ∷ rest

  -- Refused with 401 or 403, or authorized.
  Checked : Option ℕ → Type 0
  Checked none = IsAuthorized lib secret now header scope
  Checked (some status) = (status ≡ 401) ⊎ (status ≡ 403)

  verdict-Checked :
      (token : Bytes) (v : Verdict)
      → header ≡ bearer ++ token
      → verify_token lib secret now token ≡ v
      → Checked (check_verdict scope v)
  unfolding check_verdict Checked
  verdict-Checked token invalid_token carries is_v = inl refl
  verdict-Checked token expired_token carries is_v = inl refl
  verdict-Checked token (valid c) carries is_v = elim (Bool-cases (has_scope scope c)) [
    | inl t ↦ rw t (record {
      token = token;
      claims = c;
      carries = carries;
      authentic = verify_token-IsAuthentic lib secret now c token is_v;
      scoped = t;
    })
    | inr f ↦ rw f (inr refl)
  ]

  bearer-Checked :
      (o : Option Bytes)
      → cut_prefix bearer header ≡ o
      → Checked (check_bearer lib secret scope now o)
  unfolding check_bearer Checked
  bearer-Checked none cut = inl refl
  bearer-Checked (some []) cut = inl refl
  bearer-Checked (some (c ∷ token)) cut =
      verdict-Checked (c ∷ token) _ (cut_prefix_sound bearer header cut) refl

  go_on :
      (o : Option ℕ) (next : Action ℕ) (w : World)
      → Checked o
      → IsAuthorized lib secret now header scope ⊎ Refused (refuse_or o next) w
  unfolding refuse_or Checked Refused pure
  go_on none next w is_authorized = inl is_authorized
  go_on (some status) next w (inl e) = inr (inl (ap (λ x. (ok x, w)) e))
  go_on (some status) next w (inr e) = inr (inr (ap (λ x. (ok x, w)) e))

  scope_checked :
      (next : Action ℕ) (w : World)
      → IsAuthorized lib secret now header scope
        ⊎ Refused (require_scope lib secret scope now header next) w
  unfolding require_scope
  scope_checked next w =
      go_on (check_bearer lib secret scope now (cut_prefix bearer header)) next w
        (bearer-Checked (cut_prefix bearer header) refl)

module _ (lib : Library) (b : ℕ) (rest : Bytes) (new_id : Uuid) (now : Instant)
    (header : Bytes) where
  at_scope :
      (own scope : Bytes) (next : Action ℕ) (w : World)
      → own ≡ scope
      → IsAuthorized lib (b ∷ rest) now header scope
        ⊎ Refused (require_scope lib (b ∷ rest) own now header next) w
  at_scope own scope next w same =
      subst
        (λ s.
          IsAuthorized lib (b ∷ rest) now header s
          ⊎ Refused (require_scope lib (b ∷ rest) own now header next) w)
        same (scope_checked lib b rest now header own next w)

  -- With a secret, a request that needs a scope (POST /jobs, drain, resume) either carries Bearer
  -- and a token that is authentic and has the scope, or is answered 401 or 403 with nothing
  -- changed, not even by a read.
  pub serve-IsAuthorized :
      (req : Request) (scope : Bytes) (w : World)
      → scope_of req ≡ some scope
      → IsAuthorized lib (b ∷ rest) now header scope
        ⊎ Refused (serve lib (b ∷ rest) new_id now header req) w
  unfolding serve
  serve-IsAuthorized (post_drain wid) scope w writes = at_scope workers_drain scope _ w (cc)
  serve-IsAuthorized (post_resume wid) scope w writes = at_scope workers_drain scope _ w (cc)
  serve-IsAuthorized (post_jobs body) scope w writes = at_scope jobs_submit scope _ w (cc)
  serve-IsAuthorized (get_workers status) scope w writes = absurd (cc)
  serve-IsAuthorized (get_jobs f) scope w writes = absurd (cc)
  serve-IsAuthorized (get_job jid) scope w writes = absurd (cc)
  serve-IsAuthorized metrics scope w writes = absurd (cc)
  serve-IsAuthorized healthz scope w writes = absurd (cc)
  serve-IsAuthorized (readyz postgres) scope w writes = absurd (cc)

append-cons-ne-nil : (xs : Bytes) (y : ℕ) (ys : Bytes) → xs ++ y ∷ ys ≢ []
append-cons-ne-nil [] y ys e = absurd (cc)
append-cons-ne-nil (x ∷ xs) y ys e = absurd (cc)

pub sign_token-ne-nil : (lib : Library) (key : Bytes) (c : Claims) → sign_token lib key c ≢ []
unfolding sign_token
sign_token-ne-nil lib key c = append-cons-ne-nil _ dot _

module _ (lib : Library) (b : ℕ) (rest : Bytes) (scope : Bytes) (now : Instant) (c : Claims) where
  check_bearer-some :
      (token : Bytes)
      → token ≢ []
      → check_bearer lib (b ∷ rest) scope now (some token)
        ≡ check_verdict scope (verify_token lib (b ∷ rest) now token)
  unfolding check_bearer
  check_bearer-some [] filled = absurd (filled refl)
  check_bearer-some (x ∷ token) filled = refl

  -- A token that was signed with the secret, has the scope and is not over goes through.
  pub require_scope-sign_token :
      (laws : IsLawful lib c)
      → has_scope scope c ≡ true
      → ltb_ℤ c.expires_at (pos (unix now)) ≡ false
      → (next : Action ℕ)
      → require_scope lib (b ∷ rest) scope now (bearer ++ sign_token lib (b ∷ rest) c) next ≡ next
  unfolding require_scope refuse_or check_verdict
  require_scope-sign_token laws scoped fresh next =
      let token = sign_token lib (b ∷ rest) c in
      let verified : verify_token lib (b ∷ rest) now token ≡ valid c =
        verify_token-sign_token lib (b ∷ rest) c laws now ∙ rw fresh refl in
      let through : check_bearer lib (b ∷ rest) scope now (cut_prefix bearer (bearer ++ token))
          ≡ none =
        rw (cut_prefix-append bearer token) (
          check_bearer-some token (sign_token-ne-nil lib (b ∷ rest) c)
          ∙ rw (verified, scoped) refl) in
      ap (λ o. refuse_or o next) through
