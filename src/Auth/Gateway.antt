-- ===== src/Auth/Gateway.antt =====
-- authenticateGateway, buildGatewayCanonicalString and verifyGatewayHMACSignature of
-- internal/server/middleware/auth.go. HMAC with SHA-256, base64 and the parser of times are parameters.
use lucky_market.Base.{
  ℕ, String, Bool, true, false, not, ◌&&◌, Option, none, some, List, [], ◌∷◌, str_eq, ◌==◌,
  if◌then◌else◌,
}
use lucky_market.Text.{concat, comma}
use lucky_market.Auth.{
  AuthSource, AuthInfo, Time, Transport, GatewayOptions, GatewaySignatureRequest,
  GatewaySignatureValidator, Attempt, absent, refused, accepted,
}
use lucky_market.Auth.Words.{trim_space, join, split_and_trim, is_hex_string, hex_decode}
use lucky_market.Auth.Checks.{
  err_or_last, error_if, validate_issuer, validate_audience, validate_expiration, parse_header_time,
}

pub record Crypto : Type 0 where
  pub hmac_sha256 : List ℕ → String → List ℕ
  pub base64_decode : String → Option (List ℕ)
  pub parse_rfc3339 : String → Option Time

-- hmac.Equal
unfoldable pub bytes_equal : List ℕ → List ℕ → Bool
bytes_equal [] [] = true
bytes_equal [] (y ∷ ys) = false
bytes_equal (x ∷ xs) [] = false
bytes_equal (x ∷ xs) (y ∷ ys) = let rest = bytes_equal xs ys in if x == y then rest else false

abbrev pub match_bytes : String → List ℕ → Option (List ℕ) → Option String
match_bytes failure expected none = some failure
match_bytes failure expected (some actual) =
    error_if (not (bytes_equal actual expected)) "gateway signature does not match"

unfoldable pub build_gateway_canonical_string :
    (String → String) → AuthInfo → GatewayOptions → String
unfolding join concat
build_gateway_canonical_string header info cfg = join "\n" (
    concat "user_id=" info.user_id
    ∷ concat "session_id=" info.session_id
    ∷ concat "device_id=" info.device_id
    ∷ concat "issuer=" info.issuer
    ∷ concat "audience=" (join "," info.audience)
    ∷ concat "expires_at=" (header cfg.expire_header)
    ∷ concat "timestamp=" (header cfg.timestamp_header)
    ∷ concat "nonce=" (header cfg.nonce_header)
    ∷ [])

module _ (crypto : Crypto) where
  unfoldable pub verify_gateway_hmac_signature : String → String → List ℕ → Option String
  unfolding trim_space is_hex_string hex_decode bytes_equal
  verify_gateway_hmac_signature canonical signature secret =
      let expected = crypto.hmac_sha256 secret canonical in
      let sig = trim_space signature in
      if is_hex_string sig
      then match_bytes "gateway signature is not valid hex" expected (hex_decode sig)
      else match_bytes "gateway signature must be hex or base64" expected (crypto.base64_decode sig)

  abbrev pub wrap_failure : Option String → Option String
  wrap_failure none = none
  wrap_failure (some e) = some (concat "gateway signature validation failed: " e)

  abbrev pub verify_with_secret : List ℕ → GatewaySignatureRequest → Option String
  verify_with_secret [] req = some "gateway signature secret is not configured"
  verify_with_secret (b ∷ bs) req =
      verify_gateway_hmac_signature req.canonical req.signature (b ∷ bs)

  unfoldable pub signature_error :
      GatewayOptions → Option GatewaySignatureValidator → GatewaySignatureRequest → Option String
  unfolding verify_gateway_hmac_signature
  signature_error cfg (some validator) req = wrap_failure (validator req)
  signature_error cfg none req = verify_with_secret cfg.signature_secret req

  -- the info that the headers claim
  unfoldable pub gateway_info : GatewayOptions → Transport → AuthInfo
  unfolding trim_space split_and_trim parse_header_time
  gateway_info cfg tr = record {
    user_id = trim_space (tr.header cfg.user_id_header);
    session_id = trim_space (tr.header cfg.session_header);
    device_id = trim_space (tr.header cfg.device_header);
    issuer = trim_space (tr.header cfg.issuer_header);
    audience = split_and_trim (tr.header cfg.audience_header) comma;
    source = AuthSource.gateway;
    subject = "";
    expires_at = parse_header_time crypto.parse_rfc3339 (tr.header cfg.expire_header);
    token_id = "";
    raw_token = "";
  }

  unfoldable pub gateway_error : GatewayOptions → Transport → Time → Option String
  unfolding err_or_last gateway_info trim_space validate_issuer validate_audience
      validate_expiration build_gateway_canonical_string signature_error
  gateway_error cfg tr now =
      let info = gateway_info cfg tr in
      let signature = trim_space (tr.header cfg.signature_header) in
      err_or_last (error_if (str_eq info.user_id "") "gateway user id header is empty") (
        err_or_last (error_if (str_eq signature "") "gateway signature header is empty") (
          err_or_last
            (error_if (cfg.require_device && str_eq info.device_id "")
              "gateway device header is empty")
            (err_or_last (validate_issuer info.issuer cfg.issuer) (
              err_or_last (validate_audience info.audience cfg.audience) (
                err_or_last
                  (validate_expiration info.expires_at cfg.require_expires cfg.clock_skew now)
                  (signature_error cfg cfg.signature_validator (record {
                    canonical = build_gateway_canonical_string tr.header info cfg;
                    signature = signature;
                    header = tr.header;
                    auth_info = info;
                  })))))))

  abbrev pub accept_gateway : AuthInfo → Option String → Attempt
  accept_gateway info none = accepted info
  accept_gateway info (some e) = refused e

  unfoldable pub authenticate_gateway : GatewayOptions → Transport → Time → Attempt
  unfolding gateway_info gateway_error trim_space
  authenticate_gateway cfg tr now =
      if cfg.enabled
      then (if str_eq (trim_space (tr.header cfg.user_id_header)) ""
            && str_eq (trim_space (tr.header cfg.signature_header)) ""
          then absent
          else accept_gateway (gateway_info cfg tr) (gateway_error cfg tr now))
      else absent
