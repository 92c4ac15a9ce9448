-- ===== src/Auth/Credentials.antt =====
-- Where a request carries its credentials: extractJWTToken, extractSessionID and stripBearerPrefix of
-- internal/server/middleware/auth.go.
use lucky_market.Base.{
  String, Option, none, some, List, [], ◌∷◌, ◌⊎◌, inl, inr, str_eq, if◌then◌else◌,
}
use lucky_market.Text.{concat}
use lucky_market.Auth.{Transport, JwtOptions, SessionOptions}
use lucky_market.Auth.Words.{trim_space, strip_fold}

-- the first of `names` with a value that is not blank, trimmed
unfoldable pub first_value : (String → String) → List String → Option String
unfolding trim_space
first_value get [] = none
first_value get (name ∷ names) =
    let rest = first_value get names in
    let value = trim_space (get name) in if str_eq value "" then rest else some value

-- a cookie that is missing is passed over, as a blank one is
abbrev pub cookie_value : (String → Option String) → String → String
cookie_value cookie name = elim (cookie name) [ none ↦ "" | some value ↦ value ]

unfoldable pub first_cookie : Option (String → Option String) → List String → Option String
unfolding first_value
first_cookie none names = none
first_cookie (some cookie) names = first_value (cookie_value cookie) names

abbrev pub token_of : String → Option String → String ⊎ String
token_of prefix none = inl (concat "authorization header must use " (trim_space prefix))
token_of prefix (some rest) =
    let token = trim_space rest in
    if str_eq token "" then inl "authorization token is empty" else inr token

unfoldable pub strip_bearer_prefix : String → String → String ⊎ String
unfolding strip_fold trim_space
strip_bearer_prefix value prefix = token_of prefix (strip_fold prefix value)

-- an error of stripBearerPrefix is an attempt with the empty token
abbrev pub token_or_empty : String ⊎ String → String
token_or_empty (inl e) = ""
token_or_empty (inr token) = token

-- none is no attempt
unfoldable pub extract_jwt_token : {W K : Type 0} → Transport → JwtOptions W K → Option String
unfolding trim_space strip_bearer_prefix first_cookie
extract_jwt_token tr cfg =
    let value = trim_space (tr.header cfg.header) in
    if str_eq value ""
    then first_cookie tr.cookies cfg.cookie_names
    else some (token_or_empty (strip_bearer_prefix value cfg.prefix))

abbrev pub or_cookie : Option String → Option String → Option String
or_cookie none cookie = cookie
or_cookie (some value) cookie = some value

unfoldable pub extract_session_id : Transport → SessionOptions → Option String
unfolding first_value first_cookie
extract_session_id tr cfg =
    or_cookie (first_value tr.header cfg.header_names) (first_cookie tr.cookies cfg.cookie_names)
