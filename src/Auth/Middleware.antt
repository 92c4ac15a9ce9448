-- ===== src/Auth/Middleware.antt =====
-- AuthMiddleware, MatchOperationSkipper, NewAuthContext, AuthInfoFromContext and authenticate of
-- internal/server/middleware/auth.go. `R` is a request and `A` what a handler answers.
use lucky_market.Base.{
  String, Bool, false, Option, none, some, List, [], ◌∷◌, ◌⊎◌, inl, inr, str_eq, if◌then◌else◌,
}
use lucky_market.Auth.{
  AuthSource, AuthInfo, Time, Transport, AuthOptions, Attempt, now_or, with_defaults,
}
use lucky_market.Auth.Words.{contains_string}
use lucky_market.Auth.Checks.{err_or_last}
use lucky_market.Auth.Session.{authenticate_session}
use lucky_market.Auth.Jwt.{JwtLibrary, authenticate_jwt}
use lucky_market.Auth.Gateway.{Crypto, authenticate_gateway}

-- the two values of a context that this code reads
pub record Context : Type 0 where
  pub server_transport : Option Transport
  pub auth_info : Option AuthInfo

abbrev pub new_auth_context : Context → AuthInfo → Context
new_auth_context ctx info = record ctx { auth_info = some info }

abbrev pub auth_info_from_context : Context → Option AuthInfo
auth_info_from_context ctx = ctx.auth_info

-- `allowed` without the empty operation
unfoldable pub allowed_operations : List String → List String
allowed_operations [] = []
allowed_operations (x ∷ xs) =
    let rest = allowed_operations xs in if str_eq x "" then rest else x ∷ rest

unfoldable pub match_operation_skipper : List String → Transport → Bool
unfolding allowed_operations contains_string
match_operation_skipper operations tr = contains_string (allowed_operations operations) tr.operation

-- what a request is answered: by the handler, by the error UNAUTHORIZED, or by a nil dereference
pub data Reply (A : Type 0) : Type 0 where
  handled : A → Reply A
  unauthorized : String → Reply A
  nil_info : Reply A

abbrev pub skips : Option (Transport → Bool) → Transport → Bool
skips none tr = false
skips (some skipper) tr = skipper tr

module _ {W K F : Type 0} (lib : JwtLibrary W K F) (crypto : Crypto) where
  unfoldable pub authenticate_source : AuthOptions W K → Transport → Time → AuthSource → Attempt
  unfolding authenticate_gateway authenticate_jwt authenticate_session
  authenticate_source opts tr now AuthSource.gateway =
      authenticate_gateway crypto opts.gateway tr now
  authenticate_source opts tr now AuthSource.jwt = authenticate_jwt lib opts.jwt tr now
  authenticate_source opts tr now AuthSource.session = authenticate_session opts.session tr now

  -- what the loop returns for an attempt
  abbrev pub answer_of : Attempt → String ⊎ Option AuthInfo
  answer_of a = elim a.failure [ some e ↦ inl e | none ↦ inr a.info ]

  abbrev pub exhausted : Option String → String ⊎ Option AuthInfo
  exhausted none = inl "missing authentication credentials"
  exhausted (some e) = inl e

  unfoldable pub try_sources :
      AuthOptions W K
      → Transport
      → Time
      → Option String
      → List AuthSource
      → String ⊎ Option AuthInfo
  unfolding authenticate_source err_or_last
  try_sources opts tr now last [] = exhausted last
  try_sources opts tr now last (source ∷ sources) =
      let a = authenticate_source opts tr now source in
      let rest = try_sources opts tr now (err_or_last a.failure last) sources in
      if a.attempted then answer_of a else rest

  unfoldable pub authenticate : AuthOptions W K → Transport → Time → String ⊎ Option AuthInfo
  unfolding try_sources
  authenticate opts tr now = try_sources opts tr now none opts.sources

  module _ {R A : Type 0} where
    abbrev pub admit : (Context → R → A) → Context → R → String ⊎ Option AuthInfo → Reply A
    admit handler ctx req (inl e) = unauthorized e
    admit handler ctx req (inr none) = nil_info
    admit handler ctx req (inr (some info)) = handled (handler (new_auth_context ctx info) req)

    abbrev pub serve :
        AuthOptions W K → Time → (Context → R → A) → Context → R → Option Transport → Reply A
    serve opts now handler ctx req none = unauthorized "missing transport context"
    serve opts now handler ctx req (some tr) =
        if skips opts.skipper tr
        then handled (handler ctx req)
        else admit handler ctx req (authenticate opts tr now)

    -- `time_now` is what time.Now returns
    unfoldable pub auth_middleware :
        Time → AuthOptions W K → (Context → R → A) → Context → R → Reply A
    unfolding authenticate with_defaults
    auth_middleware time_now o handler ctx req =
        let opts = with_defaults time_now o in
        serve opts (now_or time_now opts.now) handler ctx req ctx.server_transport
