-- ===== src/Auth/Vetted.antt =====
-- What an accepted info has passed, by its source.
pub mod OfSession
pub mod OfGateway
pub mod OfJwt
use lucky_market.Base.{
  ℕ, String, Bool, true, false, not, ◌&&◌, Option, none, some, List, [], ◌∷◌, ◌≡◌, ◌≢◌, refl, ap,
  sym, ◌∙◌, ◌⊎◌, inl, inr, str_eq, eq_iff, ◌==◌, ==_iff, Bool-cases, if◌then◌else◌,
}
use lucky_market.Base.Int.{ℤ, pos, ◌-ℤ◌, ltb_ℤ, eqb_ℤ, eqb_ℤ_iff}
use lucky_market.Auth.{Time}
use lucky_market.Auth.Words.{trim_space}
use lucky_market.Auth.Checks.{
  err_or_last, error_if, validate_device_header, validate_optional_device_header, validate_issuer,
  actual_set, any_in, validate_audience, validate_expiration,
}

abbrev pub IsListed : String → List String → Type 0
IsListed x [] = ⊥
IsListed x (y ∷ ys) = (y ≡ x) ⊎ IsListed x ys

-- no issuer is asked for, or it is this one
abbrev pub IsIssuer : String → String → Type 0
IsIssuer actual expected = (expected ≡ "") ⊎ (trim_space actual ≡ expected)

-- no audience is asked for, or the two share a text
abbrev pub IsAudience : List String → List String → Type 0
IsAudience actual expected =
    (expected ≡ []) ⊎ ((x : String) × (x ≢ "") × IsListed x actual × IsListed x expected)

abbrev pub IsCurrent : Time → ℤ → Time → Type 0
IsCurrent expires_at skew now = (expires_at ≢ pos 0) × (ltb_ℤ (now -ℤ skew) expires_at ≡ true)

-- the device that the request names
abbrev pub IsDevice : (String → String) → String → String → Type 0
IsDevice header name device_id = (device_id ≢ "") × (trim_space (header name) ≡ device_id)

pub str_eq→≡ : (s t : String) → str_eq s t ≡ true → s ≡ t
str_eq→≡ s t = (eq_iff s t).0

pub str_eq→≢ : (s t : String) → str_eq s t ≡ false → s ≢ t
str_eq→≢ s t differ same = let e = (eq_iff s t).1 same in cc

pub err_or_last-none : (a b : Option String) → err_or_last a b ≡ none → (a ≡ none) × (b ≡ none)
unfolding err_or_last
err_or_last-none none b h = (refl, h)
err_or_last-none (some e) b h = cc

pub error_if-none : (b : Bool) (e : String) → error_if b e ≡ none → b ≡ false
error_if-none true e h = cc
error_if-none false e h = refl

pub not-false : (b : Bool) → not b ≡ false → b ≡ true
not-false true h = refl
not-false false h = cc

pub second-false : (a b : Bool) → a ≡ true → (a && b) ≡ false → b ≡ false
second-false true b t h = h
second-false false b t h = cc

pub validate_device_header-none :
    (header : String → String) (name expected : String)
    → validate_device_header header name expected ≡ none
    → IsDevice header name expected
unfolding validate_device_header
validate_device_header-none header name expected =
    elim (Bool-cases (str_eq (trim_space (header name)) "")) [
      | inl blank ↦ rw blank (λ h. cc)
      | inr filled ↦ rw filled (λ h.
          let same =
            str_eq→≡ (trim_space (header name)) expected
              (not-false (str_eq (trim_space (header name)) expected) (error_if-none _ _ h)) in
          (λ empty. str_eq→≢ _ _ filled (same ∙ empty), same))
    ]

pub validate_optional_device_header-none :
    (header : String → String) (name expected : String)
    → expected ≢ ""
    → validate_optional_device_header header name expected ≡ none
    → IsDevice header name expected
unfolding validate_optional_device_header
validate_optional_device_header-none header name expected filled =
    elim (Bool-cases (str_eq expected "")) [
      | inl e ↦ λ h. absurd (filled (str_eq→≡ expected "" e))
      | inr e ↦ rw e (validate_device_header-none header name expected)
    ]

pub validate_issuer-none :
    (actual expected : String) → validate_issuer actual expected ≡ none → IsIssuer actual expected
unfolding validate_issuer
validate_issuer-none actual expected = elim (Bool-cases (str_eq expected "")) [
  | inl e ↦ λ h. inl (str_eq→≡ expected "" e)
  | inr e ↦ rw e (λ h. inr (str_eq→≡ _ _ (not-false _ (error_if-none _ _ h))))
]

actual_set-IsListed :
    (actual : List String) (x : String) → actual_set actual x ≡ true → (x ≢ "") × IsListed x actual
unfolding actual_set
actual_set-IsListed [] x = λ h. cc
actual_set-IsListed (y ∷ ys) x = elim (Bool-cases (str_eq y "")) [
  | inl e ↦ rw e (λ h. let (f, l) = actual_set-IsListed ys x h in (f, inr l))
  | inr e ↦ rw e (elim (Bool-cases (str_eq y x)) [
    | inl s ↦ λ h. (λ empty. str_eq→≢ y "" e (str_eq→≡ y x s ∙ empty), inl (str_eq→≡ y x s))
    | inr s ↦ rw s (λ h. let (f, l) = actual_set-IsListed ys x h in (f, inr l))
  ])
]

any_in-IsListed :
    (set : String → Bool) (xs : List String)
    → any_in set xs ≡ true
    → (x : String) × (set x ≡ true) × IsListed x xs
unfolding any_in
any_in-IsListed set [] = λ h. cc
any_in-IsListed set (y ∷ ys) = elim (Bool-cases (set y)) [
  | inl e ↦ λ h. (y, e, inl refl)
  | inr e ↦ rw e (λ h. let (x, f, l) = any_in-IsListed set ys h in (x, f, inr l))
]

pub validate_audience-none :
    (actual expected : List String)
    → validate_audience actual expected ≡ none
    → IsAudience actual expected
unfolding validate_audience
validate_audience-none actual [] h = inl refl
validate_audience-none actual (y ∷ ys) h =
    let (x, found, expected) =
      any_in-IsListed (actual_set actual) (y ∷ ys) (not-false _ (error_if-none _ _ h)) in
    let (filled, listed) = actual_set-IsListed actual x found in inr (x, filled, listed, expected)

pub validate_expiration-none :
    (expires_at : Time) (required : Bool) (skew : ℤ) (now : Time)
    → required ≡ true
    → validate_expiration expires_at required skew now ≡ none
    → IsCurrent expires_at skew now
unfolding validate_expiration
validate_expiration-none expires_at required skew now needed =
    elim (Bool-cases (eqb_ℤ expires_at (pos 0))) [
      | inl e ↦ rw (e, needed) (λ h. cc)
      | inr e ↦ rw e (λ h. (
        λ zero. let z = (eqb_ℤ_iff expires_at (pos 0)).1 zero in cc,
        not-false _ (error_if-none _ _ h),
      ))
    ]
