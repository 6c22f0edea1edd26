-- ===== src/Ctl.antt =====
-- The operator's client, cmd/fleetforgectl/main.go: the tokens that it mints and the requests that it
-- sends. The flags and the environment are texts; the HTTP client is a parameter.
pub mod Minted
use fleetforge.Base.{
  ℕ, String, Bool, true, false, ◌==◌, Option, none, some, List, [], ◌∷◌, ◌++◌, if◌then◌else◌,
}
use fleetforge.Base.Int.{ℤ}
use fleetforge.Base.Bytes.{Bytes, codes, split}
use fleetforge.Schema.{Instant}
use fleetforge.Auth.Jwt.{Library, issue_token}
use fleetforge.Api.Router.{bearer}
use fleetforge.Config.Load.{Env, or_default, comma, filled}

pub data MintResult : Type 0 where
  minted : Bytes → MintResult
  -- "no secret", "--scopes is required" and the error of IssueToken.
  no_secret no_scopes issue_failed : MintResult

module _ (lib : Library) where
  unfoldable pub issued : Option Bytes → MintResult
  issued none = issue_failed
  issued (some token) = minted token

  unfoldable pub mint_scopes : Bytes → Bytes → List Bytes → ℤ → Instant → MintResult
  mint_scopes secret subject [] ttl now = no_scopes
  mint_scopes secret subject (s ∷ scopes) ttl now =
      issued (issue_token lib secret subject (s ∷ scopes) ttl now)

  unfoldable pub mint_with : Bytes → Bytes → Bytes → ℤ → Instant → MintResult
  mint_with [] subject scopes_raw ttl now = no_secret
  mint_with (b ∷ secret) subject scopes_raw ttl now =
      mint_scopes (b ∷ secret) subject (filled (split comma scopes_raw)) ttl now

  -- The command `auth mint-token`, with the flags --secret, --subject, --scopes and --ttl.
  unfoldable pub mint_token : Env → Bytes → Bytes → Bytes → ℤ → Instant → MintResult
  mint_token env secret subject scopes_raw ttl now =
      mint_with (or_default secret (env "FLEETFORGE_JWT_SECRET")) subject scopes_raw ttl now

unfoldable pub resolve_token : Env → Bytes → Bytes
resolve_token env flag_value = or_default flag_value (env "FLEETFORGE_TOKEN")

pub record HttpRequest : Type 0 where
  pub url : Bytes
  -- The header Authorization, empty where it is not set.
  pub authorization : Bytes

-- The status code and the body.
abbrev pub HttpReply : Type 0
HttpReply = ℕ × Bytes

pub data ClientResult : Type 0 where
  printed : Bytes → ClientResult
  request_failed : ClientResult
  unexpected_status : ℕ → Bytes → ClientResult

abbrev pub header_of : Bytes → Bytes
header_of [] = []
header_of (b ∷ token) = bearer ++ b ∷ token

-- The request of postWorkerAction.
unfoldable pub worker_request : Bytes → Bytes → Bytes → Bytes → HttpRequest
worker_request api_addr token worker_id action = record {
  url = api_addr ++ codes "/v1/workers/" ++ worker_id ++ codes "/" ++ action;
  authorization = header_of token;
}

unfoldable pub reply_checked : Option HttpReply → ClientResult
reply_checked none = request_failed
reply_checked (some (status, body)) =
    if status == 200 then printed body else unexpected_status status body

-- `send` is http.DefaultClient.Do with the reading of the body: `none` is an error of either.
unfoldable pub post_worker_action :
    (HttpRequest → Option HttpReply) → Bytes → Bytes → Bytes → Bytes → ClientResult
unfolding worker_request reply_checked
post_worker_action send api_addr token worker_id action =
    reply_checked (send (worker_request api_addr token worker_id action))
