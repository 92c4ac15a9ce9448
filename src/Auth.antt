-- ===== src/Auth.antt =====
-- internal/server/middleware/auth.go: who a request is from. This file has the requests, the options
-- and their defaults. An error is its text, and none is a nil error; what Now returns is an argument of
-- the functions that ask for it.
pub mod Words
pub mod Checks
pub mod Credentials
pub mod Jwt
pub mod Session
pub mod Gateway
pub mod Middleware
pub mod Vetted
pub mod FirstSource
pub mod Canonical
pub mod Defaults
pub mod Hex
use lucky_market.Base.{
  ℕ, ◌*◌, String, Bool, true, false, Option, none, some, List, [], ◌∷◌, ◌⊎◌, str_eq, if◌then◌else◌,
}
use lucky_market.Base.Int.{ℤ, pos, leb_ℤ}

pub data AuthSource : Type 0 where
  gateway jwt session : AuthSource

-- a time is its nanoseconds since the first of January of the year 1, which is the zero time
abbrev pub Time : Type 0
Time = ℤ

abbrev pub second : ℕ
second = 1000000000

pub record AuthInfo : Type 0 where
  pub user_id : String
  pub session_id : String
  pub device_id : String
  pub issuer : String
  pub audience : List String
  pub source : AuthSource
  pub subject : String
  pub expires_at : Time
  pub token_id : String
  pub raw_token : String

-- transport.Transporter: RequestHeader().Get, the cookies of the HTTP request, where it is one, and
-- the operation
pub record Transport : Type 0 where
  pub header : String → String
  pub cookies : Option (String → Option String)
  pub operation : String

pub record SessionValidateRequest : Type 0 where
  pub session_id : String
  pub device_id : String
  pub transport : Transport

pub record GatewaySignatureRequest : Type 0 where
  pub canonical : String
  pub signature : String
  pub header : String → String
  pub auth_info : AuthInfo

abbrev pub SessionValidator : Type 0
SessionValidator = SessionValidateRequest → String ⊎ Option AuthInfo

abbrev pub GatewaySignatureValidator : Type 0
GatewaySignatureValidator = GatewaySignatureRequest → Option String

-- `K` is the type of keys, `W` that of tokens under verification; a key function may fail.
pub record JwtOptions (W K : Type 0) : Type 0 where
  pub enabled : Bool
  pub header : String
  pub prefix : String
  pub cookie_names : List String
  pub key_func : Option (W → String ⊎ K)
  pub signing_key : Option K
  pub signing_methods : List String
  pub issuer : String
  pub audience : List String
  pub device_header : String
  pub device_claim : String
  pub user_id_claims : List String
  pub session_id_claim : String
  pub require_expires_at : Bool
  pub clock_skew : ℤ

pub record SessionOptions : Type 0 where
  pub enabled : Bool
  pub header_names : List String
  pub cookie_names : List String
  pub device_header : String
  pub validator : Option SessionValidator
  pub issuer : String
  pub audience : List String
  pub clock_skew : ℤ
  pub require_device : Bool
  pub require_expires : Bool

pub record GatewayOptions : Type 0 where
  pub enabled : Bool
  pub user_id_header : String
  pub session_header : String
  pub device_header : String
  pub issuer_header : String
  pub audience_header : String
  pub expire_header : String
  pub signature_header : String
  pub timestamp_header : String
  pub nonce_header : String
  pub signature_secret : List ℕ
  pub signature_validator : Option GatewaySignatureValidator
  pub issuer : String
  pub audience : List String
  pub clock_skew : ℤ
  pub require_device : Bool
  pub require_expires : Bool

pub record AuthOptions (W K : Type 0) : Type 0 where
  pub skipper : Option (Transport → Bool)
  pub now : Option Time
  pub sources : List AuthSource
  pub jwt : JwtOptions W K
  pub session : SessionOptions
  pub gateway : GatewayOptions

-- `if o.X == "" { o.X = d }`
abbrev pub text_or : String → String → String
text_or d s = if str_eq s "" then d else s

-- `if len(o.X) == 0 { o.X = d }`
abbrev pub list_or {ℓ} : {A : Type ℓ} → List A → List A → List A
list_or d [] = d
list_or d (x ∷ xs) = x ∷ xs

-- `if o.ClockSkew <= 0 { o.ClockSkew = 30 * time.Second }`
abbrev pub skew_or_default : ℤ → ℤ
skew_or_default skew = if leb_ℤ skew (pos 0) then pos (30 * second) else skew

-- `if !o.X { o.X = true }`
abbrev pub or_true : Bool → Bool
or_true b = if b then b else true

-- `if o.Now == nil { o.Now = time.Now }`
abbrev pub now_or : Time → Option Time → Time
now_or time_now none = time_now
now_or time_now (some t) = t

module _ {W K : Type 0} where
  unfoldable pub jwt_defaults : JwtOptions W K → JwtOptions W K
  jwt_defaults o = record o {
    header = text_or "Authorization" o.header;
    prefix = text_or "Bearer " o.prefix;
    device_header = text_or "X-Device-Id" o.device_header;
    device_claim = text_or "device_id" o.device_claim;
    user_id_claims = list_or ("user_id" ∷ "uid" ∷ "sub" ∷ []) o.user_id_claims;
    session_id_claim = text_or "sid" o.session_id_claim;
  }

unfoldable pub session_defaults : SessionOptions → SessionOptions
session_defaults o = record o {
  header_names = list_or ("X-Session-Id" ∷ []) o.header_names;
  device_header = text_or "X-Device-Id" o.device_header;
  clock_skew = skew_or_default o.clock_skew;
  require_expires = or_true o.require_expires;
  require_device = or_true o.require_device;
}

unfoldable pub gateway_defaults : GatewayOptions → GatewayOptions
gateway_defaults o = record o {
  user_id_header = text_or "X-User-Id" o.user_id_header;
  session_header = text_or "X-Session-Id" o.session_header;
  device_header = text_or "X-Device-Id" o.device_header;
  issuer_header = text_or "X-Auth-Issuer" o.issuer_header;
  audience_header = text_or "X-Auth-Audience" o.audience_header;
  expire_header = text_or "X-Auth-Expires-At" o.expire_header;
  signature_header = text_or "X-Auth-Signature" o.signature_header;
  timestamp_header = text_or "X-Auth-Timestamp" o.timestamp_header;
  nonce_header = text_or "X-Auth-Nonce" o.nonce_header;
  clock_skew = skew_or_default o.clock_skew;
  require_expires = or_true o.require_expires;
  require_device = or_true o.require_device;
}

unfoldable pub with_defaults : {W K : Type 0} → Time → AuthOptions W K → AuthOptions W K
unfolding jwt_defaults session_defaults gateway_defaults
with_defaults time_now o = record o {
  now = some (now_or time_now o.now);
  sources = list_or (AuthSource.gateway ∷ AuthSource.jwt ∷ AuthSource.session ∷ []) o.sources;
  jwt = jwt_defaults o.jwt;
  session = session_defaults o.session;
  gateway = gateway_defaults o.gateway;
}

-- what a source answers: (info, attempted, err)
pub record Attempt : Type 0 where
  pub info : Option AuthInfo
  pub attempted : Bool
  pub failure : Option String

abbrev pub absent : Attempt
absent = record { info = none; attempted = false; failure = none }

abbrev pub refused : String → Attempt
refused e = record { info = none; attempted = true; failure = some e }

abbrev pub accepted : AuthInfo → Attempt
accepted i = record { info = some i; attempted = true; failure = none }
