-- ===== src/Auth/Soundness.antt =====
-- What a verified token is, internal/auth/jwt.go.
use fleetforge.Base.{
  ◌≡◌, refl, sym, ap, subst, false, Option, none, some, List, [], ◌∷◌, ◌++◌, Bool-cases, inl, inr,
}
use fleetforge.Base.Int.{pos, ltb_ℤ}
use fleetforge.Base.Bytes.{Bytes, bytes_eq, bytes_eq-eq, split, join, join-split}
use fleetforge.Schema.{Instant}
use fleetforge.Grpc.Heartbeat.{unix}
use fleetforge.Auth.Base64.{decode}
use fleetforge.Auth.Jwt.{
  Claims, Library, dot, valid, check_claims, check_payload, check_signature, verify_parts,
  verify_token,
}

-- The token is three parts, the third decodes to the HMAC of the first two under the secret, the
-- second to the claims, and their last second is not over.
pub record IsAuthentic (lib : Library) (secret : Bytes) (now : Instant) (token : Bytes) (c : Claims)
    : Type 0 where
  pub head : Bytes
  pub body : Bytes
  pub signature : Bytes
  pub payload : Bytes
  pub spells : token ≡ head ++ dot ∷ (body ++ dot ∷ signature)
  pub signed : decode signature ≡ some (lib.hmac secret (head ++ dot ∷ body))
  pub carries : decode body ≡ some payload
  pub names : lib.unmarshal payload ≡ some c
  pub fresh : ltb_ℤ c.expires_at (pos (unix now)) ≡ false

module _ (lib : Library) (secret : Bytes) (now : Instant) (c : Claims) where
  claims_checked :
      (o : Option Claims)
      → check_claims lib now o ≡ valid c
      → (o ≡ some c) × (ltb_ℤ c.expires_at (pos (unix now)) ≡ false)
  unfolding check_claims
  claims_checked none h = absurd (cc)
  claims_checked (some d) h = elim (Bool-cases (ltb_ℤ d.expires_at (pos (unix now)))) [
    | inl t ↦ absurd (cc (rw t at h))
    | inr f ↦
        let same : d ≡ c = cc (rw f at h) in
        (ap some same, subst (λ x. ltb_ℤ x.expires_at (pos (unix now)) ≡ false) same f)
  ]

  payload_checked :
      (o : Option Bytes)
      → check_payload lib now o ≡ valid c
      → (payload : Bytes) × (o ≡ some payload)
        × (lib.unmarshal payload ≡ some c)
        × (ltb_ℤ c.expires_at (pos (unix now)) ≡ false)
  unfolding check_payload
  payload_checked none h = absurd (cc)
  payload_checked (some payload) h =
      let (names, fresh) = claims_checked (lib.unmarshal payload) h in (payload, refl, names, fresh)

  signature_checked :
      (input body : Bytes) (o : Option Bytes)
      → check_signature lib secret now input body o ≡ valid c
      → (o ≡ some (lib.hmac secret input)) × (check_payload lib now (decode body) ≡ valid c)
  unfolding check_signature
  signature_checked input body none h = absurd (cc)
  signature_checked input body (some s) h = elim (Bool-cases (bytes_eq (lib.hmac secret input) s)) [
    | inl t ↦ (ap some (sym (bytes_eq-eq _ _ t)), rw t at h)
    | inr f ↦ absurd (cc (rw f at h))
  ]

  parts_checked :
      (token : Bytes) (parts : List Bytes)
      → join dot parts ≡ token
      → verify_parts lib secret now parts ≡ valid c
      → IsAuthentic lib secret now token c
  unfolding verify_parts join
  parts_checked token [] spelled h = absurd (cc)
  parts_checked token (a ∷ []) spelled h = absurd (cc)
  parts_checked token (a ∷ b ∷ []) spelled h = absurd (cc)
  parts_checked token (a ∷ b ∷ s ∷ x ∷ xs) spelled h = absurd (cc)
  parts_checked token (a ∷ b ∷ s ∷ []) spelled h =
      let (signed, checked) = signature_checked (a ++ dot ∷ b) b (decode s) h in
      let (payload, carries, names, fresh) = payload_checked (decode b) checked in
      record {
        head = a;
        body = b;
        signature = s;
        payload = payload;
        spells = sym spelled;
        signed = signed;
        carries = carries;
        names = names;
        fresh = fresh;
      }

  -- VerifyToken accepts a token only if it is three parts, the third decodes to the HMAC of the
  -- first two under the secret, the second decodes to the claims that are returned, and their last
  -- second is not over.
  pub verify_token-IsAuthentic :
      (token : Bytes)
      → verify_token lib secret now token ≡ valid c
      → IsAuthentic lib secret now token c
  unfolding verify_token
  verify_token-IsAuthentic token h = parts_checked token (split dot token) (join-split dot token) h
