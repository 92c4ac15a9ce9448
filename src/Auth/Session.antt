-- ===== src/Auth/Session.antt =====
-- authenticateSession of internal/server/middleware/auth.go.
use lucky_market.Base.{String, ◌&&◌, Option, none, some, ◌⊎◌, inl, inr, str_eq, if◌then◌else◌}
use lucky_market.Text.{concat}
use lucky_market.Auth.{
  AuthSource, AuthInfo, Time, Transport, SessionOptions, SessionValidator, Attempt, absent, refused,
  accepted,
}
use lucky_market.Auth.Words.{trim_space}
use lucky_market.Auth.Checks.{
  err_or_last, error_if, validate_optional_device_header, validate_issuer, validate_audience,
  validate_expiration,
}
use lucky_market.Auth.Credentials.{extract_session_id}

-- the checks of the info, in their order
unfoldable pub session_error : SessionOptions → Transport → Time → AuthInfo → Option String
unfolding err_or_last trim_space validate_optional_device_header validate_issuer validate_audience
    validate_expiration
session_error cfg tr now info =
    err_or_last (error_if (str_eq info.user_id "") "session user id is empty") (
      err_or_last
        (error_if (cfg.require_device && str_eq (trim_space info.device_id) "")
          "session device information is missing")
        (err_or_last (validate_optional_device_header tr.header cfg.device_header info.device_id) (
          err_or_last (validate_issuer info.issuer cfg.issuer) (
            err_or_last (validate_audience info.audience cfg.audience)
              (validate_expiration info.expires_at cfg.require_expires cfg.clock_skew now)))))

abbrev pub accept_session : String → AuthInfo → Option String → Attempt
accept_session session_id info none =
    accepted (record info { source = AuthSource.session; session_id = session_id })
accept_session session_id info (some e) = refused e

unfoldable pub judge_session :
    SessionOptions → Transport → Time → String → String ⊎ Option AuthInfo → Attempt
unfolding session_error
judge_session cfg tr now session_id (inl e) = refused (concat "session validation failed: " e)
judge_session cfg tr now session_id (inr none) =
    refused "session validation returned empty auth info"
judge_session cfg tr now session_id (inr (some info)) =
    accept_session session_id info (session_error cfg tr now info)

unfoldable pub validate_session :
    SessionOptions → Transport → Time → Option SessionValidator → Option String → Attempt
unfolding judge_session trim_space
validate_session cfg tr now validator none = absent
validate_session cfg tr now none (some session_id) = refused "session validator is not configured"
validate_session cfg tr now (some validator) (some session_id) =
    judge_session cfg tr now session_id (
      validator (record {
        session_id = session_id;
        device_id = trim_space (tr.header cfg.device_header);
        transport = tr;
      }))

unfoldable pub authenticate_session : SessionOptions → Transport → Time → Attempt
unfolding validate_session extract_session_id
authenticate_session cfg tr now =
    if cfg.enabled
    then validate_session cfg tr now cfg.validator (extract_session_id tr cfg)
    else absent
