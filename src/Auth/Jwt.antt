-- ===== src/Auth/Jwt.antt =====
-- IssueToken, VerifyToken and HasScope, internal/auth/jwt.go. A text that is taken apart is a list of
-- bytes; the subject and the scopes are lists of code points. HMAC-SHA256 and the JSON of the two structures are parameters.
use fleetforge.Base.{ℕ, Bool, false, ◌||◌, Option, none, some, List, [], ◌∷◌, ◌++◌, if◌then◌else◌}
use fleetforge.Base.Int.{ℤ, pos, ltb_ℤ}
use fleetforge.Base.Bytes.{Bytes, bytes_eq, split}
use fleetforge.Schema.{Instant}
use fleetforge.JobStore.Backoff.{add_duration}
use fleetforge.Grpc.Heartbeat.{unix}
use fleetforge.Auth.Base64.{encode, decode}

pub record Claims : Type 0 where
  pub subject : Bytes
  pub scopes : List Bytes
  pub issued_at : ℤ
  pub expires_at : ℤ

-- hmac.New(sha256.New, secret) over an input, json.Marshal of the fixed header and of claims, and
-- json.Unmarshal of claims.
pub record Library : Type 0 where
  pub hmac : Bytes → Bytes → Bytes
  pub header : Bytes
  pub marshal : Claims → Bytes
  pub unmarshal : Bytes → Option Claims

-- The two errors of VerifyToken, or the claims.
pub data Verdict : Type 0 where
  invalid_token expired_token : Verdict
  valid : Claims → Verdict

unfoldable pub has_text : Bytes → List Bytes → Bool
has_text scope [] = false
has_text scope (s ∷ ss) = bytes_eq s scope || has_text scope ss

unfoldable pub has_scope : Bytes → Claims → Bool
unfolding has_text
has_scope scope c = has_text scope c.scopes

abbrev pub dot : ℕ
dot = b'.'

module _ (lib : Library) where
  open lib use {hmac, header, marshal, unmarshal}

  unfoldable pub signing_input : Claims → Bytes
  signing_input c = encode header ++ dot ∷ encode (marshal c)

  unfoldable pub sign_token : Bytes → Claims → Bytes
  sign_token secret c = signing_input c ++ dot ∷ encode (hmac secret (signing_input c))

  -- `none` is the error for an empty secret. The token lives for `ttl` nanoseconds.
  unfoldable pub issue_token : Bytes → Bytes → List Bytes → ℤ → Instant → Option Bytes
  issue_token [] subject scopes ttl now = none
  issue_token (b ∷ secret) subject scopes ttl now = some (
      sign_token (b ∷ secret) (record {
        subject = subject;
        scopes = scopes;
        issued_at = pos (unix now);
        expires_at = pos (unix (add_duration now ttl));
      }))

  unfoldable pub check_claims : Instant → Option Claims → Verdict
  check_claims now none = invalid_token
  check_claims now (some c) = if ltb_ℤ c.expires_at (pos (unix now)) then expired_token else valid c

  unfoldable pub check_payload : Instant → Option Bytes → Verdict
  check_payload now none = invalid_token
  check_payload now (some payload) = check_claims now (unmarshal payload)

  unfoldable pub check_signature : Bytes → Instant → Bytes → Bytes → Option Bytes → Verdict
  check_signature secret now input payload none = invalid_token
  check_signature secret now input payload (some signature) =
      if bytes_eq (hmac secret input) signature
      then check_payload now (decode payload)
      else invalid_token

  unfoldable pub verify_parts : Bytes → Instant → List Bytes → Verdict
  verify_parts secret now (h ∷ p ∷ s ∷ []) = check_signature secret now (h ++ dot ∷ p) p (decode s)
  verify_parts secret now _ = invalid_token

  unfoldable pub verify_token : Bytes → Instant → Bytes → Verdict
  verify_token secret now token = verify_parts secret now (split dot token)
