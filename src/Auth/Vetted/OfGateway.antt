-- ===== src/Auth/Vetted/OfGateway.antt =====
-- What an info from the gateway's headers has passed.
use lucky_market.Base.{
  ℕ, String, true, false, ◌&&◌, Option, none, some, List, [], ◌∷◌, ◌≡◌, ◌≢◌, refl, ap, ◌⊎◌, inl,
  inr, str_eq, ◌==◌, ==_iff, Bool-cases, Option-cases,
}
use lucky_market.Auth.{
  AuthSource, AuthInfo, Time, Transport, GatewayOptions, GatewaySignatureRequest,
  GatewaySignatureValidator, Attempt, absent, refused, accepted,
}
use lucky_market.Auth.Words.{trim_space, is_hex_string, hex_decode}
use lucky_market.Auth.Gateway.{
  Crypto, bytes_equal, match_bytes, build_gateway_canonical_string, verify_gateway_hmac_signature,
  verify_with_secret, signature_error, gateway_info, gateway_error, authenticate_gateway,
}
use lucky_market.Auth.Vetted.{
  IsIssuer, IsAudience, IsCurrent, str_eq→≢, err_or_last-none, error_if-none, not-false,
  second-false, validate_issuer-none, validate_audience-none, validate_expiration-none,
}

module _ (crypto : Crypto) where
  -- the text is the bytes, in hex where it can be hex, and in base64 otherwise
  abbrev pub IsSignature : String → List ℕ → Type 0
  IsSignature sig bytes =
      (is_hex_string sig ≡ true) × (hex_decode sig ≡ some bytes)
      ⊎ (is_hex_string sig ≡ false) × (crypto.base64_decode sig ≡ some bytes)

  -- the validator agrees or, without one, the signature is that of the secret, which is not empty
  abbrev pub IsSigned : List ℕ → Option GatewaySignatureValidator → GatewaySignatureRequest → Type 0
  IsSigned secret (some validator) req = validator req ≡ none
  IsSigned secret none req =
      (secret ≢ [])
      × IsSignature (trim_space req.signature) (crypto.hmac_sha256 secret req.canonical)

  abbrev pub signed_request : GatewayOptions → Transport → GatewaySignatureRequest
  signed_request cfg tr = record {
    canonical = build_gateway_canonical_string tr.header (gateway_info crypto cfg tr) cfg;
    signature = trim_space (tr.header cfg.signature_header);
    header = tr.header;
    auth_info = gateway_info crypto cfg tr;
  }

  -- the info is what the headers claim, and it was checked and signed
  abbrev pub IsGatewayVetted : GatewayOptions → Transport → Time → AuthInfo → Type 0
  IsGatewayVetted cfg tr now i =
      (i ≡ gateway_info crypto cfg tr)
      × (i.user_id ≢ "")
      × (i.device_id ≢ "")
      × IsIssuer i.issuer cfg.issuer
      × IsAudience i.audience cfg.audience
      × IsCurrent i.expires_at cfg.clock_skew now
      × IsSigned cfg.signature_secret cfg.signature_validator (signed_request cfg tr)

  bytes_equal→≡ : (xs ys : List ℕ) → bytes_equal xs ys ≡ true → xs ≡ ys
  unfolding bytes_equal
  bytes_equal→≡ [] [] = λ h. refl
  bytes_equal→≡ [] (y ∷ ys) = λ h. cc
  bytes_equal→≡ (x ∷ xs) [] = λ h. cc
  bytes_equal→≡ (x ∷ xs) (y ∷ ys) = elim (Bool-cases (x == y)) [
    | inl e ↦ rw e (λ h. let p = (==_iff x y).0 e in let q = bytes_equal→≡ xs ys h in cc)
    | inr e ↦ rw e (λ h. cc)
  ]

  match_bytes-none :
      (failure : String) (expected : List ℕ) (o : Option (List ℕ))
      → match_bytes failure expected o ≡ none
      → o ≡ some expected
  match_bytes-none failure expected none h = cc
  match_bytes-none failure expected (some actual) h =
      ap some (bytes_equal→≡ actual expected (not-false _ (error_if-none _ _ h)))

  verified :
      (canonical signature : String) (secret : List ℕ)
      → verify_gateway_hmac_signature crypto canonical signature secret ≡ none
      → IsSignature (trim_space signature) (crypto.hmac_sha256 secret canonical)
  unfolding verify_gateway_hmac_signature
  verified canonical signature secret = elim (Bool-cases (is_hex_string (trim_space signature))) [
    | inl e ↦ rw e (λ h. inl (refl, match_bytes-none _ _ _ h))
    | inr e ↦ rw e (λ h. inr (refl, match_bytes-none _ _ _ h))
  ]

  signature_error-none :
      (cfg : GatewayOptions) (v : Option GatewaySignatureValidator) (req : GatewaySignatureRequest)
      → signature_error crypto cfg v req ≡ none
      → IsSigned cfg.signature_secret v req
  unfolding signature_error
  signature_error-none cfg (some validator) req h = elim (Option-cases (validator req)) [
    | inl e ↦ e
    | inr (e, failed) ↦ let q = rw failed at h in cc
  ]
  signature_error-none cfg none req h = with_secret cfg.signature_secret h
    where
      with_secret :
          (secret : List ℕ) → verify_with_secret crypto secret req ≡ none → IsSigned secret none req
      with_secret [] h = cc
      with_secret (b ∷ bs) h = (λ e. cc, verified req.canonical req.signature (b ∷ bs) h)

  gateway_error-none :
      (cfg : GatewayOptions) (tr : Transport) (now : Time)
      → cfg.require_device ≡ true
      → cfg.require_expires ≡ true
      → gateway_error crypto cfg tr now ≡ none
      → IsGatewayVetted cfg tr now (gateway_info crypto cfg tr)
  unfolding gateway_error
  gateway_error-none cfg tr now device expires h =
      let (user, h1) = err_or_last-none _ _ h in
      let (sig, h2) = err_or_last-none _ _ h1 in
      let (dev, h3) = err_or_last-none _ _ h2 in
      let (iss, h4) = err_or_last-none _ _ h3 in
      let (aud, h5) = err_or_last-none _ _ h4 in
      let (exp, signed) = err_or_last-none _ _ h5 in
      (
        refl,
        str_eq→≢ _ "" (error_if-none _ _ user),
        str_eq→≢ _ "" (second-false _ _ device (error_if-none _ _ dev)),
        validate_issuer-none (gateway_info crypto cfg tr).issuer cfg.issuer iss,
        validate_audience-none (gateway_info crypto cfg tr).audience cfg.audience aud,
        validate_expiration-none (gateway_info crypto cfg tr).expires_at _ cfg.clock_skew now
            expires exp,
        signature_error-none cfg cfg.signature_validator _ signed,
      )

  -- An attempt of the gateway is no attempt, a refusal, or an info that it has vetted.
  abbrev pub IsGatewayAttempt : GatewayOptions → Transport → Time → Attempt → Type 0
  IsGatewayAttempt cfg tr now a =
      (a ≡ absent)
      ⊎ ((e : String) × (a ≡ refused e))
      ⊎ ((i : AuthInfo) × (a ≡ accepted i)
          × (i.source ≡ AuthSource.gateway)
          × IsGatewayVetted cfg tr now i)

  pub gateway_attempt :
      (cfg : GatewayOptions) (tr : Transport) (now : Time)
      → cfg.require_device ≡ true
      → cfg.require_expires ≡ true
      → IsGatewayAttempt cfg tr now (authenticate_gateway crypto cfg tr now)
  unfolding authenticate_gateway gateway_info
  gateway_attempt cfg tr now device expires = elim (Bool-cases cfg.enabled) [
    | inr off ↦ rw off (inl refl)
    | inl on ↦
        rw on
          (elim (Bool-cases (
            str_eq (trim_space (tr.header cfg.user_id_header)) ""
            && str_eq (trim_space (tr.header cfg.signature_header)) "")) [
              | inl blank ↦ rw blank (inl refl)
              | inr filled ↦ rw filled (elim (Option-cases (gateway_error crypto cfg tr now)) [
                | inl clean ↦
                    rw clean (
                      inr (inr (_, refl, refl, gateway_error-none cfg tr now device expires clean)))
                | inr (e, failed) ↦ rw failed (inr (inl (_, refl)))
              ])
            ])
  ]
