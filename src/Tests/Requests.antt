-- ===== src/Tests/Requests.antt =====
-- Requests with and without credentials.
use lucky_market.Base.{
  ℕ, String, true, false, Option, none, some, List, [], ◌∷◌, ◌≡◌, refl, inl, str_eq, if◌then◌else◌,
}
use lucky_market.Base.Int.{pos}
use lucky_market.Auth.{AuthSource, AuthInfo, Transport, AuthOptions}
use lucky_market.Auth.Jwt.{JwtLibrary}
use lucky_market.Auth.Gateway.{Crypto, build_gateway_canonical_string}
use lucky_market.Auth.Middleware.{Context, handled, auth_middleware, match_operation_skipper}
use lucky_market.Auth.FirstSource.{IsGated, auth_middleware-IsGated}
use lucky_market.Base.{not, ◌≢◌, ◌⊎◌}
use lucky_market.Auth.Checks.{error_if}
use lucky_market.Auth.Gateway.{bytes_equal, verify_gateway_hmac_signature}
use lucky_market.Auth.Words.{trim_space, join, is_hex_string, hex_decode}
use lucky_market.Auth.Hex.{verify-hex_decode}
use lucky_market.Auth.Canonical.{is_line, signed_values, canonical_binds}

-- a library that refuses every token, and a code that is always the same
abbrev library : JwtLibrary (Unit {0}) (Unit {0}) ℕ
library = record {
  alg = λ w. "HS256";
  parse_with_claims = λ raw f o. inl "token is malformed";
  truncate = pos;
  parse_rfc3339 = λ v. none;
}

abbrev crypto : Crypto
crypto = record {
  hmac_sha256 = λ secret text. 171 ∷ [];
  base64_decode = λ v. none;
  parse_rfc3339 = λ v. none;
}

abbrev options : AuthOptions (Unit {0}) (Unit {0})
options = record {
  skipper = some (match_operation_skipper ("/health" ∷ "" ∷ []));
  now = some (pos 63897158400000000000);
  sources = [];
  jwt = record {
    enabled = true;
    header = "";
    prefix = "";
    cookie_names = [];
    key_func = none;
    signing_key = none;
    signing_methods = [];
    issuer = "";
    audience = [];
    device_header = "";
    device_claim = "";
    user_id_claims = [];
    session_id_claim = "";
    require_expires_at = false;
    clock_skew = pos 0;
  };
  session = record {
    enabled = false;
    header_names = [];
    cookie_names = [];
    device_header = "";
    validator = none;
    issuer = "";
    audience = [];
    clock_skew = pos 0;
    require_device = false;
    require_expires = false;
  };
  gateway = record {
    enabled = true;
    user_id_header = "";
    session_header = "";
    device_header = "";
    issuer_header = "";
    audience_header = "";
    expire_header = "";
    signature_header = "";
    timestamp_header = "";
    nonce_header = "";
    signature_secret = 1 ∷ [];
    signature_validator = none;
    issuer = "";
    audience = "shop" ∷ [];
    clock_skew = pos 0;
    require_device = false;
    require_expires = false;
  };
}

abbrev headers : String → String
headers name =
    if str_eq name "X-User-Id"
    then " u1 "
    else if str_eq name "X-Auth-Signature"
    then "aB"
    else if str_eq name "X-Device-Id"
    then "d1"
    else if str_eq name "X-Auth-Audience"
    then "other, shop"
    else if str_eq name "X-Auth-Expires-At"
    then "1761561600"
    else ""

abbrev transport : Transport
transport = record { header = headers; cookies = none; operation = "/draw" }

abbrev context : Context
context = record { server_transport = some transport; auth_info = none }

abbrev user_of : Context → Unit {0} → Option String
user_of ctx req = elim ctx.auth_info [ none ↦ none | some i ↦ some i.user_id ]

gateway_request :
    auth_middleware library crypto (pos 0) options user_of context tt ≡ handled (some "u1")
unfolding auth_middleware match_operation_skipper lucky_market.Text.split lucky_market.Text.digits
    lucky_market.Text.scan
gateway_request = refl

auth_middleware-IsGated_example :
    IsGated library crypto
      (pos 0)
      options
      user_of
      context
      tt
      (some transport)
      (auth_middleware library crypto (pos 0) options user_of context tt)
auth_middleware-IsGated_example =
    auth_middleware-IsGated library crypto (pos 0) options user_of context tt

abbrev info : AuthInfo
info = record {
  user_id = "u1";
  session_id = "s1";
  device_id = "d1";
  issuer = "";
  audience = "a" ∷ "b" ∷ [];
  source = AuthSource.gateway;
  subject = "";
  expires_at = pos 0;
  token_id = "";
  raw_token = "";
}

-- the audience may be cut in another way
abbrev info' : AuthInfo
info' = record info { audience = "a,b" ∷ [] }

canonical_binds_example :
    signed_values headers info options.gateway ≡ signed_values headers info' options.gateway
unfolding is_line build_gateway_canonical_string join
canonical_binds_example =
    canonical_binds headers headers info info' options.gateway
      (refl, (refl, (refl, (refl, (refl, (refl, (refl, (refl, tt))))))))
      (refl, (refl, (refl, (refl, (refl, (refl, (refl, (refl, tt)))))))) refl

verify-hex_decode_example :
    (verify_gateway_hmac_signature crypto "user_id=u1" " aB " (1 ∷ [])
      ≢ some "gateway signature is not valid hex")
    × ((is_hex_string (trim_space " aB ") ≡ false)
        ⊎ ((bytes : List ℕ) × (hex_decode (trim_space " aB ") ≡ some bytes)
            × (verify_gateway_hmac_signature crypto "user_id=u1" " aB " (1 ∷ [])
                ≡ error_if
                    (not (bytes_equal bytes (crypto.hmac_sha256 (1 ∷ []) "user_id=u1")))
                    "gateway signature does not match")))
verify-hex_decode_example = verify-hex_decode crypto "user_id=u1" " aB " (1 ∷ [])
