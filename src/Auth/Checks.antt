-- ===== src/Auth/Checks.antt =====
-- The validate functions of internal/server/middleware/auth.go, errOrLast, time.Unix and
-- parseHeaderTime; a check answers its error, or none.
use lucky_market.Base.{
  ℕ, ◌-◌, ◌*◌, ◌^◌, String, Bool, true, false, not, Option, none, some, List, [], ◌∷◌, str_eq,
  if◌then◌else◌,
}
use lucky_market.Base.Int.{ℤ, pos, pos_part, neg_part, sub_ℕ, ◌+ℤ◌, ◌-ℤ◌, leb_ℤ, ltb_ℤ, eqb_ℤ}
use lucky_market.Text.{concat, parse_int}
use lucky_market.Auth.{Time, second}
use lucky_market.Auth.Words.{trim_space}

-- errOrLast, and a check that is made where the first has no error
unfoldable pub err_or_last : Option String → Option String → Option String
err_or_last none last = last
err_or_last (some e) last = some e

-- `if b { return fmt.Errorf(e) }`
abbrev pub error_if : Bool → String → Option String
error_if b e = if b then some e else none

unfoldable pub validate_device_header : (String → String) → String → String → Option String
unfolding trim_space
validate_device_header header header_name expected =
    let actual = trim_space (header header_name) in
    if str_eq actual ""
    then some (concat "request device header " (concat header_name " is empty"))
    else error_if (not (str_eq actual expected))
        (concat "request device header " (concat header_name " does not match token claim"))

unfoldable pub validate_optional_device_header : (String → String) → String → String → Option String
unfolding validate_device_header
validate_optional_device_header header header_name expected =
    if str_eq expected "" then none else validate_device_header header header_name expected

unfoldable pub validate_issuer : String → String → Option String
unfolding trim_space
validate_issuer actual expected =
    if str_eq expected ""
    then none
    else error_if (not (str_eq (trim_space actual) expected)) "issuer does not match"

-- the set of the texts that are not empty
unfoldable pub actual_set : List String → String → Bool
actual_set [] item = false
actual_set (x ∷ xs) item =
    let rest = actual_set xs item in
    if str_eq x "" then rest else if str_eq x item then true else rest

unfoldable pub any_in : (String → Bool) → List String → Bool
any_in set [] = false
any_in set (x ∷ xs) = let rest = any_in set xs in if set x then true else rest

unfoldable pub validate_audience : List String → List String → Option String
unfolding any_in actual_set
validate_audience actual [] = none
validate_audience actual (x ∷ xs) =
    error_if (not (any_in (actual_set actual) (x ∷ xs))) "audience does not match"

-- `now.Add(-clockSkew)` is subtracted
unfoldable pub validate_expiration : Time → Bool → ℤ → Time → Option String
unfolding ◌-ℤ◌
validate_expiration expire_at required clock_skew now =
    if eqb_ℤ expire_at (pos 0)
    then error_if required "expiration time is missing"
    else error_if (not (ltb_ℤ (now -ℤ clock_skew) expire_at)) "authentication credential is expired"

abbrev pub times : ℕ → ℤ → ℤ
times k z = sub_ℕ (pos_part z * k) (neg_part z * k)

-- time.Unix(sec, 0): the seconds since the year 1 are an int64 that wraps around
unfoldable pub unix : ℤ → Time
unfolding ◌+ℤ◌ ◌-ℤ◌
unix sec =
    let internal = sec +ℤ pos 62135596800 in
    times second (if leb_ℤ internal (pos (2 ^ 63 - 1)) then internal else internal -ℤ pos (2 ^ 64))

-- time.Parse(time.RFC3339, value)
abbrev pub parsed_or_zero : Option Time → Time
parsed_or_zero none = pos 0
parsed_or_zero (some t) = t

abbrev pub seconds_or : Option ℤ → Time → Time
seconds_or none t = t
seconds_or (some sec) t = unix sec

unfoldable pub parse_header_time : (String → Option Time) → String → Time
unfolding trim_space parse_int unix
parse_header_time parse_rfc3339 value =
    let v = trim_space value in
    if str_eq v "" then pos 0 else seconds_or (parse_int v) (parsed_or_zero (parse_rfc3339 v))
