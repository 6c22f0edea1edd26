-- ===== src/Ctl/Minted.antt =====
-- A minted token opens the endpoints of its scopes: cmd/fleetforgectl/main.go with internal/auth and
-- internal/api.
use fleetforge.Base.{ℕ, ◌≡◌, ◌≢◌, refl, ap, subst, ◌∙◌, true, false, List, [], ◌∷◌, ◌++◌}
use fleetforge.Base.Int.{ℤ, pos, ltb_ℤ}
use fleetforge.Base.Bytes.{Bytes, split}
use fleetforge.Schema.{Instant}
use fleetforge.World.{Action}
use fleetforge.JobStore.Backoff.{add_duration}
use fleetforge.Grpc.Heartbeat.{unix}
use fleetforge.Auth.Jwt.{Claims, Library, has_text, has_scope, sign_token, issue_token}
use fleetforge.Auth.RoundTrip.{IsLawful}
use fleetforge.Api.Router.{bearer, require_scope}
use fleetforge.Api.Guarded.{require_scope-sign_token, sign_token-ne-nil}
use fleetforge.Config.Load.{Env, or_default, comma, filled}
use fleetforge.Ctl.{minted, issued, mint_scopes, mint_with, mint_token, header_of, worker_request}

abbrev pub minted_claims : Bytes → List Bytes → ℤ → Instant → Claims
minted_claims subject scopes ttl now = record {
  subject = subject;
  scopes = scopes;
  issued_at = pos (unix now);
  expires_at = pos (unix (add_duration now ttl));
}

header_of_lem : (token : Bytes) → token ≢ [] → header_of token ≡ bearer ++ token
header_of_lem [] h = absurd (h refl)
header_of_lem (b ∷ token) h = refl

module _ (lib : Library) (subject : Bytes) (ttl : ℤ) (now later : Instant) (token scope : Bytes)
    (next : Action ℕ) where
  signed_opens :
      (b : ℕ) (rest : Bytes) (scopes : List Bytes)
      → sign_token lib (b ∷ rest) (minted_claims subject scopes ttl now) ≡ token
      → has_text scope scopes ≡ true
      → IsLawful lib (minted_claims subject scopes ttl now)
      → ltb_ℤ (pos (unix (add_duration now ttl))) (pos (unix later)) ≡ false
      → require_scope lib (b ∷ rest) scope later (header_of token) next ≡ next
  unfolding has_scope
  signed_opens b rest scopes spelled scoped laws fresh =
      let c = minted_claims subject scopes ttl now in
      subst (λ t. require_scope lib (b ∷ rest) scope later (header_of t) next ≡ next) spelled
        (ap (λ h. require_scope lib (b ∷ rest) scope later h next)
            (header_of_lem _ (sign_token-ne-nil lib (b ∷ rest) c))
          ∙ require_scope-sign_token lib b rest scope later c laws scoped fresh next)

  scopes_open :
      (b : ℕ) (rest : Bytes) (scopes : List Bytes)
      → mint_scopes lib (b ∷ rest) subject scopes ttl now ≡ minted token
      → has_text scope scopes ≡ true
      → IsLawful lib (minted_claims subject scopes ttl now)
      → ltb_ℤ (pos (unix (add_duration now ttl))) (pos (unix later)) ≡ false
      → require_scope lib (b ∷ rest) scope later (header_of token) next ≡ next
  unfolding mint_scopes issue_token issued
  scopes_open b rest [] is_minted scoped laws fresh = absurd (cc)
  scopes_open b rest (s ∷ scopes) is_minted scoped laws fresh =
      signed_opens b rest (s ∷ scopes) (cc) scoped laws fresh

  secret_opens :
      (secret scopes_raw : Bytes)
      → mint_with lib secret subject scopes_raw ttl now ≡ minted token
      → has_text scope (filled (split comma scopes_raw)) ≡ true
      → IsLawful lib (minted_claims subject (filled (split comma scopes_raw)) ttl now)
      → ltb_ℤ (pos (unix (add_duration now ttl))) (pos (unix later)) ≡ false
      → require_scope lib secret scope later (header_of token) next ≡ next
  unfolding mint_with
  secret_opens [] scopes_raw is_minted scoped laws fresh = absurd (cc)
  secret_opens (b ∷ rest) scopes_raw is_minted scoped laws fresh =
      scopes_open b rest (filled (split comma scopes_raw)) is_minted scoped laws fresh

-- If mint-token prints a token for a list of scopes with the secret of the scheduler, and JSON
-- reads back its claims, then until it expires a request of the client that carries it passes
-- RequireScope for each of these scopes.
pub require_scope-mint_token :
    (lib : Library) (env : Env) (secret subject scopes_raw : Bytes) (ttl : ℤ) (now : Instant)
    (token : Bytes)
    → mint_token lib env secret subject scopes_raw ttl now ≡ minted token
    → (scope : Bytes) → has_text scope (filled (split comma scopes_raw)) ≡ true
    → IsLawful lib (minted_claims subject (filled (split comma scopes_raw)) ttl now)
    → (later : Instant) → ltb_ℤ (pos (unix (add_duration now ttl))) (pos (unix later)) ≡ false
    → (api_addr worker_id action : Bytes) (next : Action ℕ)
    → require_scope lib
        (or_default secret (env "FLEETFORGE_JWT_SECRET"))
        scope
        later
        (worker_request api_addr token worker_id action).authorization
        next
      ≡ next
unfolding mint_token worker_request
require_scope-mint_token lib env secret subject scopes_raw ttl now token is_minted scope scoped laws
      later fresh api_addr worker_id action next =
    secret_opens lib subject ttl now later token scope next
      (or_default secret (env "FLEETFORGE_JWT_SECRET")) scopes_raw is_minted scoped laws fresh
