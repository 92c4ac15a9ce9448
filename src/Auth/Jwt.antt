-- ===== src/Auth/Jwt.antt =====
-- authenticateJWT of internal/server/middleware/auth.go and what reads the claims. The JWT library is a
-- parameter: `W` are its tokens under verification, `K` its keys, `F` is float64.
use lucky_market.Base.{
  String, Bool, true, false, Option, none, some, List, [], ◌∷◌, ◌⊎◌, inl, inr, str_eq,
  if◌then◌else◌,
}
use lucky_market.Base.Int.{ℤ, pos, ltb_ℤ}
use lucky_market.Text.{concat, comma, parse_int, format_int}
use lucky_market.Auth.{
  AuthSource, AuthInfo, Time, Transport, JwtOptions, Attempt, absent, refused, accepted,
}
use lucky_market.Auth.Words.{trim_space, trim_slice, split_and_trim, contains_string, join}
use lucky_market.Auth.Checks.{unix, validate_device_header, parse_header_time}
use lucky_market.Auth.Credentials.{extract_jwt_token}

-- A claim, by the type of its value: a string, a number, a fmt.Stringer with its String(), a []string,
-- a []any with the fmt.Sprint of each, nil, and any other with its fmt.Sprint.
pub data Claim (F : Type 0) : Type 0 where
  text : String → Claim F
  float64 : F → Claim F
  int64 : ℤ → Claim F
  int : ℤ → Claim F
  stringer : String → Claim F
  texts : List String → Claim F
  values : List String → Claim F
  null : Claim F
  other : String → Claim F

-- jwt.MapClaims
abbrev pub Claims : Type 0 → Type 0
Claims F = String → Option (Claim F)

-- the options of the parser, in the words of the jwt.With functions; none is an option not given
pub record ParserOptions : Type 0 where
  pub time : Time
  pub valid_methods : List String
  pub issuer : String
  pub audience : List String
  pub leeway : Option ℤ
  pub expiration_required : Bool

-- jwt.ParseWithClaims: its error, or the claims and whether the token is valid
abbrev pub Parsed : Type 0 → Type 0
Parsed F = String ⊎ (Bool × Claims F)

pub record JwtLibrary (W K F : Type 0) : Type 0 where
  pub alg : W → String
  pub parse_with_claims : String → (W → String ⊎ K) → ParserOptions → Parsed F
  -- int64(v)
  pub truncate : F → ℤ
  pub parse_rfc3339 : String → Option Time

module _ {W K F : Type 0} (lib : JwtLibrary W K F) where
  -- `[a b]`, as fmt.Sprint has a slice
  abbrev pub sprint_list : List String → String
  sprint_list items = concat "[" (concat (join " " items) "]")

  unfoldable pub claim_text : Claim F → String
  unfolding trim_space format_int concat join
  claim_text (text v) = trim_space v
  claim_text (stringer v) = trim_space v
  claim_text (float64 v) = format_int (lib.truncate v)
  claim_text (int64 v) = format_int v
  claim_text (int v) = trim_space (format_int v)
  claim_text (texts v) = trim_space (sprint_list v)
  claim_text (values v) = trim_space (sprint_list v)
  claim_text null = "<nil>"
  claim_text (other v) = trim_space v

  unfoldable pub read_string_claim : Claims F → String → String
  unfolding claim_text
  read_string_claim claims key = elim (claims key) [ none ↦ "" | some raw ↦ claim_text raw ]

  unfoldable pub extract_user_id_claim : Claims F → List String → String ⊎ String
  unfolding read_string_claim
  extract_user_id_claim claims [] = inl "jwt user id claim is missing"
  extract_user_id_claim claims (key ∷ keys) =
      let rest = extract_user_id_claim claims keys in
      let value = read_string_claim claims key in if str_eq value "" then rest else inr value

  unfoldable pub extract_required_string_claim : Claims F → String → String ⊎ String
  unfolding read_string_claim
  extract_required_string_claim claims key =
      let value = read_string_claim claims key in
      if str_eq value "" then inl (concat "jwt claim " (concat key " is missing")) else inr value

  abbrev pub unix_or_zero : Option ℤ → Time
  unix_or_zero none = pos 0
  unix_or_zero (some sec) = unix sec

  -- of the values with a String() only a json.Number is a number of seconds
  unfoldable pub read_time_claim : Option (Claim F) → Time
  unfolding unix parse_int parse_header_time
  read_time_claim (some (float64 v)) = unix (lib.truncate v)
  read_time_claim (some (int64 v)) = unix v
  read_time_claim (some (int v)) = unix v
  read_time_claim (some (stringer v)) = unix_or_zero (parse_int v)
  read_time_claim (some (text v)) = parse_header_time lib.parse_rfc3339 v
  read_time_claim _ = pos 0

  unfoldable pub normalize_audience_claim : Option (Claim F) → List String
  unfolding trim_slice split_and_trim
  normalize_audience_claim (some (texts v)) = trim_slice v
  normalize_audience_claim (some (values v)) = trim_slice v
  normalize_audience_claim (some (text v)) = split_and_trim v comma
  normalize_audience_claim _ = []

  -- the key function that authenticateJWT makes of the signing key
  abbrev pub signing_key_func : List String → K → W → String ⊎ K
  signing_key_func [] key token = inr key
  signing_key_func (x ∷ xs) key token =
      if contains_string (x ∷ xs) (lib.alg token)
      then inr key
      else inl (concat "jwt signing method " (concat (lib.alg token) " is not allowed"))

  unfoldable pub key_func_of : JwtOptions W K → String ⊎ (W → String ⊎ K)
  unfolding contains_string
  key_func_of cfg = elim cfg.key_func [
    | some f ↦ inr f
    | none ↦ elim cfg.signing_key [
      | none ↦ inl "jwt signing key is not configured"
      | some key ↦ inr (signing_key_func cfg.signing_methods key)
    ]
  ]

  unfoldable pub parser_options : JwtOptions W K → Time → ParserOptions
  parser_options cfg now = record {
    time = now;
    valid_methods = cfg.signing_methods;
    issuer = cfg.issuer;
    audience = cfg.audience;
    leeway = if ltb_ℤ (pos 0) cfg.clock_skew then some cfg.clock_skew else none;
    expiration_required = cfg.require_expires_at;
  }

  unfoldable pub jwt_info : JwtOptions W K → String → String → String → Claims F → AuthInfo
  unfolding read_string_claim normalize_audience_claim read_time_claim
  jwt_info cfg raw_token user_id device_id claims = record {
    user_id = user_id;
    session_id = read_string_claim claims cfg.session_id_claim;
    device_id = device_id;
    issuer = read_string_claim claims "iss";
    audience = normalize_audience_claim (claims "aud");
    source = AuthSource.jwt;
    subject = read_string_claim claims "sub";
    expires_at = read_time_claim (claims "exp");
    token_id = read_string_claim claims "jti";
    raw_token = raw_token;
  }

  abbrev pub with_user : JwtOptions W K → String → String → Claims F → String ⊎ String → Attempt
  with_user cfg raw_token device_id claims (inl e) = refused e
  with_user cfg raw_token device_id claims (inr user_id) =
      accepted (jwt_info cfg raw_token user_id device_id claims)

  abbrev pub with_device :
      JwtOptions W K → Transport → String → Claims F → String ⊎ String → Attempt
  with_device cfg tr raw_token claims (inl e) = refused e
  with_device cfg tr raw_token claims (inr device_id) =
      elim (validate_device_header tr.header cfg.device_header device_id) [
        | some e ↦ refused e
        | none ↦
            with_user cfg raw_token device_id claims
              (extract_user_id_claim claims cfg.user_id_claims)
      ]

  unfoldable pub judge_token : JwtOptions W K → Transport → String → Parsed F → Attempt
  unfolding extract_required_string_claim extract_user_id_claim validate_device_header jwt_info
  judge_token cfg tr raw_token (inl e) = refused (concat "jwt validation failed: " e)
  judge_token cfg tr raw_token (inr (false, claims)) = refused "jwt token is invalid"
  judge_token cfg tr raw_token (inr (true, claims)) =
      with_device cfg tr raw_token claims (extract_required_string_claim claims cfg.device_claim)

  unfoldable pub judge_jwt :
      JwtOptions W K → Transport → Time → Option String → String ⊎ (W → String ⊎ K) → Attempt
  unfolding judge_token parser_options
  judge_jwt cfg tr now none key_func = absent
  judge_jwt cfg tr now (some raw_token) (inl e) = refused e
  judge_jwt cfg tr now (some raw_token) (inr key_func) =
      judge_token cfg tr raw_token
        (lib.parse_with_claims raw_token key_func (parser_options cfg now))

  unfoldable pub authenticate_jwt : JwtOptions W K → Transport → Time → Attempt
  unfolding judge_jwt extract_jwt_token key_func_of
  authenticate_jwt cfg tr now =
      if cfg.enabled
      then judge_jwt cfg tr now (extract_jwt_token tr cfg) (key_func_of cfg)
      else absent
