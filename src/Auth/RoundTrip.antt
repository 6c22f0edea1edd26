-- ===== src/Auth/RoundTrip.antt =====
-- A token that was issued is verified, internal/auth/jwt.go.
use fleetforge.Base.{◌≡◌, refl, ap, ◌∙◌, some, List, [], ◌∷◌, ◌++◌, All, if◌then◌else◌}
use fleetforge.Base.Int.{pos, ltb_ℤ}
use fleetforge.Base.Bytes.{Bytes, bytes_eq_refl, split, join, split-join}
use fleetforge.Schema.{Instant}
use fleetforge.Grpc.Heartbeat.{unix}
use fleetforge.Auth.Base64.{IsByte, encode, decode-encode, encode-Lacks}
use fleetforge.Auth.Jwt.{
  Claims, Library, dot, expired_token, valid, signing_input, sign_token, check_claims,
  check_payload, check_signature, verify_parts, verify_token,
}
use mathlib.Core.List.{append_assoc}

-- What the libraries are used for, at the claims of one token: their values are bytes, and
-- unmarshalling reads back what marshalling wrote.
pub record IsLawful (lib : Library) (c : Claims) : Type 0 where
  pub hmac_bytes : (secret input : Bytes) → All IsByte (lib.hmac secret input)
  pub marshal_bytes : All IsByte (lib.marshal c)
  pub unmarshal_marshal : lib.unmarshal (lib.marshal c) ≡ some c

module _ (lib : Library) (secret : Bytes) (c : Claims) (laws : IsLawful lib c) where
  open laws use {hmac_bytes, marshal_bytes, unmarshal_marshal}

  parts : List Bytes
  parts =
      encode lib.header
      ∷ encode (lib.marshal c)
      ∷ encode (lib.hmac secret (signing_input lib c))
      ∷ []

  split-sign_token : split dot (sign_token lib secret c) ≡ parts
  unfolding sign_token signing_input parts
  split-sign_token =
      ap (split dot) (append_assoc (encode lib.header) (dot ∷ encode (lib.marshal c)) _)
      ∙ unfold join in
        split-join dot parts (λ e. cc)
          (encode-Lacks lib.header, (encode-Lacks _, (encode-Lacks _, tt)))

  verified : (now : Instant) → verify_parts lib secret now parts ≡ check_claims lib now (some c)
  unfolding verify_parts check_signature check_payload signing_input parts
  verified now =
      let input = encode lib.header ++ dot ∷ encode (lib.marshal c) in
      rw
        (
          decode-encode (lib.hmac secret input) (hmac_bytes secret input),
          bytes_eq_refl (lib.hmac secret input),
          decode-encode (lib.marshal c) marshal_bytes,
          unmarshal_marshal,
        )
        refl

  -- With an HMAC that yields bytes and JSON that reads back the claims, a token signed with a
  -- secret is verified with it: it is valid with the claims that went in, or expired if their last
  -- second is over.
  pub verify_token-sign_token :
      (now : Instant)
      → verify_token lib secret now (sign_token lib secret c)
        ≡ (if ltb_ℤ c.expires_at (pos (unix now)) then expired_token else valid c)
  unfolding verify_token check_claims
  verify_token-sign_token now = ap (verify_parts lib secret now) split-sign_token ∙ verified now
