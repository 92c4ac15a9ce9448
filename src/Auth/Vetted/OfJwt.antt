-- ===== src/Auth/Vetted/OfJwt.antt =====
-- What an info from a JWT has passed.
use lucky_market.Base.{
  String, true, false, Option, none, some, List, [], ◌∷◌, ◌≡◌, ◌≢◌, refl, ◌⊎◌, inl, inr, str_eq,
  Bool-cases, Option-cases,
}
use lucky_market.Auth.{
  AuthSource, AuthInfo, Time, Transport, JwtOptions, Attempt, absent, refused, accepted,
}
use lucky_market.Auth.Checks.{validate_device_header}
use lucky_market.Auth.Credentials.{extract_jwt_token}
use lucky_market.Auth.Jwt.{
  Claims, Parsed, JwtLibrary, read_string_claim, extract_user_id_claim,
  extract_required_string_claim, key_func_of, parser_options, jwt_info, with_user, with_device,
  judge_token, judge_jwt, authenticate_jwt,
}
use lucky_market.Auth.Vetted.{IsDevice, IsListed, str_eq→≢, validate_device_header-none}

module _ {W K F : Type 0} (lib : JwtLibrary W K F) where
  -- a claim that names the user, and is not blank
  abbrev pub IsUser : Claims F → List String → String → Type 0
  IsUser claims keys user_id =
      (user_id ≢ "")
      × ((key : String) × IsListed key keys × (read_string_claim lib claims key ≡ user_id))

  -- the library takes the token of the request, under the options, for valid; the device of its claims
  -- is that of the request
  abbrev pub IsJwtVetted : JwtOptions W K → Transport → Time → AuthInfo → Type 0
  IsJwtVetted cfg tr now i =
      (key_func : W → String ⊎ K) × (claims : Claims F) × (extract_jwt_token tr cfg
        ≡ some i.raw_token)
      × (key_func_of lib cfg ≡ inr key_func)
      × (lib.parse_with_claims i.raw_token key_func (parser_options lib cfg now)
          ≡ inr (true, claims))
      × IsDevice tr.header cfg.device_header i.device_id
      × (read_string_claim lib claims cfg.device_claim ≡ i.device_id)
      × IsUser claims cfg.user_id_claims i.user_id

  extract_user_id_claim-IsUser :
      (claims : Claims F) (keys : List String) (user_id : String)
      → extract_user_id_claim lib claims keys ≡ inr user_id
      → IsUser claims keys user_id
  unfolding extract_user_id_claim
  extract_user_id_claim-IsUser claims [] user_id = λ h. cc
  extract_user_id_claim-IsUser claims (key ∷ keys) user_id =
      elim (Bool-cases (str_eq (read_string_claim lib claims key) "")) [
        | inl e ↦ rw e (λ h.
            let (f, (k, l, r)) = extract_user_id_claim-IsUser claims keys user_id h in
            (f, (k, inr l, r)))
        | inr e ↦ rw e (λ h. (λ blank. str_eq→≢ _ "" e (let r = h in cc), (key, inl refl, cc)))
      ]

  extract_required_string_claim-inr :
      (claims : Claims F) (key value : String)
      → extract_required_string_claim lib claims key ≡ inr value
      → read_string_claim lib claims key ≡ value
  unfolding extract_required_string_claim
  extract_required_string_claim-inr claims key value =
      elim (Bool-cases (str_eq (read_string_claim lib claims key) "")) [
        | inl e ↦ rw e (λ h. cc)
        | inr e ↦ rw e (λ h. cc)
      ]

  -- An attempt of a JWT is no attempt, a refusal, or an info that it has vetted.
  abbrev pub IsJwtAttempt : JwtOptions W K → Transport → Time → Attempt → Type 0
  IsJwtAttempt cfg tr now a =
      (a ≡ absent)
      ⊎ ((e : String) × (a ≡ refused e))
      ⊎ ((i : AuthInfo) × (a ≡ accepted i) × (i.source ≡ AuthSource.jwt) × IsJwtVetted cfg tr now i)

  pub jwt_attempt :
      (cfg : JwtOptions W K) (tr : Transport) (now : Time)
      → IsJwtAttempt cfg tr now (authenticate_jwt lib cfg tr now)
  unfolding authenticate_jwt judge_jwt judge_token jwt_info
  jwt_attempt cfg tr now = elim (Bool-cases cfg.enabled) [
    | inr off ↦ rw off (inl refl)
    | inl on ↦ rw on (by_token (extract_jwt_token tr cfg) (key_func_of lib cfg) refl refl)
  ]
    where
      judged :
          (kf : W → String ⊎ K) (raw : String) (claims : Claims F)
          → extract_jwt_token tr cfg ≡ some raw
          → key_func_of lib cfg ≡ inr kf
          → lib.parse_with_claims raw kf (parser_options lib cfg now) ≡ inr (true, claims)
          → (device : String ⊎ String)
          → extract_required_string_claim lib claims cfg.device_claim ≡ device
          → (user : String ⊎ String) → extract_user_id_claim lib claims cfg.user_id_claims ≡ user
          → IsJwtAttempt cfg tr now (with_device lib cfg tr raw claims device)
      judged kf raw claims found key parsed (inl e) d user u = inr (inl (e, refl))
      judged kf raw claims found key parsed (inr device) d user u =
          elim (Option-cases (validate_device_header tr.header cfg.device_header device)) [
            | inr (e, failed) ↦ rw (failed, with_device) (inr (inl (e, refl)))
            | inl clean ↦ rw (clean, with_device) (rw u (of_user user u clean))
          ]
        where
          of_user :
              (user : String ⊎ String)
              → extract_user_id_claim lib claims cfg.user_id_claims ≡ user
              → validate_device_header tr.header cfg.device_header device ≡ none
              → IsJwtAttempt cfg tr now (with_user lib cfg raw device claims user)
          of_user (inl e) u clean = inr (inl (e, refl))
          of_user (inr user_id) u clean = inr (
              inr (
                _,
                refl,
                refl,
                (
                  kf,
                  claims,
                  found,
                  key,
                  parsed,
                  validate_device_header-none tr.header cfg.device_header device clean,
                  extract_required_string_claim-inr claims cfg.device_claim device d,
                  extract_user_id_claim-IsUser claims cfg.user_id_claims user_id u,
                ),
              ))

      by_parse :
          (kf : W → String ⊎ K) (raw : String)
          → extract_jwt_token tr cfg ≡ some raw
          → key_func_of lib cfg ≡ inr kf
          → (p : Parsed F) → lib.parse_with_claims raw kf (parser_options lib cfg now) ≡ p
          → IsJwtAttempt cfg tr now (judge_token lib cfg tr raw p)
      by_parse kf raw found key (inl e) parsed = inr (inl (_, refl))
      by_parse kf raw found key (inr (false, claims)) parsed = inr (inl (_, refl))
      by_parse kf raw found key (inr (true, claims)) parsed =
          judged kf raw claims found key parsed _ refl _ refl

      by_token :
          (raw : Option String) (kf : String ⊎ (W → String ⊎ K))
          → extract_jwt_token tr cfg ≡ raw
          → key_func_of lib cfg ≡ kf
          → IsJwtAttempt cfg tr now (judge_jwt lib cfg tr now raw kf)
      by_token none kf found key = inl refl
      by_token (some raw) (inl e) found key = inr (inl (e, refl))
      by_token (some raw) (inr kf) found key = by_parse kf raw found key _ refl
