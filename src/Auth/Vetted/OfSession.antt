-- ===== src/Auth/Vetted/OfSession.antt =====
-- What an info from a session has passed.
use lucky_market.Base.{
  String, true, false, Option, none, some, ◌≡◌, ◌≢◌, refl, ap, ◌⊎◌, inl, inr, str_eq, Bool-cases,
  Option-cases,
}
use lucky_market.Auth.{
  AuthSource, AuthInfo, Time, Transport, SessionOptions, SessionValidator, Attempt, absent, refused,
  accepted,
}
use lucky_market.Auth.Words.{trim_space}
use lucky_market.Auth.Credentials.{extract_session_id}
use lucky_market.Auth.Session.{session_error, judge_session, validate_session, authenticate_session}
use lucky_market.Auth.Vetted.{
  IsIssuer, IsAudience, IsCurrent, IsDevice, str_eq→≢, err_or_last-none, error_if-none,
  second-false, validate_optional_device_header-none, validate_issuer-none, validate_audience-none,
  validate_expiration-none,
}

-- what is known of the info that the validator gave
abbrev pub IsSound : SessionOptions → Transport → Time → AuthInfo → Type 0
IsSound cfg tr now info =
    (info.user_id ≢ "")
    × IsDevice tr.header cfg.device_header info.device_id
    × IsIssuer info.issuer cfg.issuer
    × IsAudience info.audience cfg.audience
    × IsCurrent info.expires_at cfg.clock_skew now

-- the request carries the id of a session that the validator knows, with a sound info
abbrev pub IsSessionVetted : SessionOptions → Transport → Time → AuthInfo → Type 0
IsSessionVetted cfg tr now i =
    (validator : SessionValidator) × (info : AuthInfo) × (cfg.validator ≡ some validator)
    × (extract_session_id tr cfg ≡ some i.session_id)
    × (validator (record {
      session_id = i.session_id;
      device_id = trim_space (tr.header cfg.device_header);
      transport = tr;
    })
        ≡ inr (some info))
    × IsSound cfg tr now info
    × (i ≡ record info { source = AuthSource.session; session_id = i.session_id })

filled_device : (d : String) → str_eq (trim_space d) "" ≡ false → d ≢ ""
unfolding trim_space
filled_device d h e = str_eq→≢ (trim_space d) "" h (ap trim_space e)

session_error-none :
    (cfg : SessionOptions) (tr : Transport) (now : Time) (info : AuthInfo)
    → cfg.require_device ≡ true
    → cfg.require_expires ≡ true
    → session_error cfg tr now info ≡ none
    → IsSound cfg tr now info
unfolding session_error
session_error-none cfg tr now info device expires h =
    let (user, h1) = err_or_last-none _ _ h in
    let (dev, h2) = err_or_last-none _ _ h1 in
    let (head, h3) = err_or_last-none _ _ h2 in
    let (iss, h4) = err_or_last-none _ _ h3 in
    let (aud, exp) = err_or_last-none _ _ h4 in
    let named = filled_device info.device_id (second-false _ _ device (error_if-none _ _ dev)) in
    (
      str_eq→≢ info.user_id "" (error_if-none _ _ user),
      validate_optional_device_header-none tr.header cfg.device_header info.device_id named head,
      validate_issuer-none info.issuer cfg.issuer iss,
      validate_audience-none info.audience cfg.audience aud,
      validate_expiration-none info.expires_at _ cfg.clock_skew now expires exp,
    )

-- An attempt of a session is no attempt, a refusal, or an info that it has vetted.
abbrev pub IsSessionAttempt : SessionOptions → Transport → Time → Attempt → Type 0
IsSessionAttempt cfg tr now a =
    (a ≡ absent)
    ⊎ ((e : String) × (a ≡ refused e))
    ⊎ ((i : AuthInfo) × (a ≡ accepted i)
        × (i.source ≡ AuthSource.session)
        × IsSessionVetted cfg tr now i)

pub session_attempt :
    (cfg : SessionOptions) (tr : Transport) (now : Time)
    → cfg.require_device ≡ true
    → cfg.require_expires ≡ true
    → IsSessionAttempt cfg tr now (authenticate_session cfg tr now)
unfolding authenticate_session validate_session judge_session
session_attempt cfg tr now device expires = elim (Bool-cases cfg.enabled) [
  | inr off ↦ rw off (inl refl)
  | inl on ↦ rw on (by_id (extract_session_id tr cfg) cfg.validator refl refl)
]
  where
    judged :
        (v : SessionValidator) (id : String)
        → cfg.validator ≡ some v
        → extract_session_id tr cfg ≡ some id
        → (r : String ⊎ Option AuthInfo)
        → v (record {
          session_id = id;
          device_id = trim_space (tr.header cfg.device_header);
          transport = tr;
        })
          ≡ r
        → IsSessionAttempt cfg tr now (judge_session cfg tr now id r)
    judged v id set found (inl e) q = inr (inl (_, refl))
    judged v id set found (inr none) q = inr (inl (_, refl))
    judged v id set found (inr (some info)) q =
        elim (Option-cases (session_error cfg tr now info)) [
          | inl clean ↦ rw clean (
              inr (
                inr (
                  _,
                  refl,
                  refl,
                  (
                    v,
                    info,
                    set,
                    found,
                    q,
                    session_error-none cfg tr now info device expires clean,
                    refl,
                  ),
                )))
          | inr (e, failed) ↦ rw failed (inr (inl (_, refl)))
        ]

    by_id :
        (id : Option String) (v : Option SessionValidator)
        → extract_session_id tr cfg ≡ id
        → cfg.validator ≡ v
        → IsSessionAttempt cfg tr now (validate_session cfg tr now v id)
    by_id none v found set = inl refl
    by_id (some id) none found set = inr (inl (_, refl))
    by_id (some id) (some v) found set = judged v id set found _ refl
