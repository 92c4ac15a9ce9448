-- ===== src/Auth/Hex.antt =====
-- isHexString and hex.DecodeString agree.
use Prim.Native.Char.{code}
use lucky_market.Base.{
  ℕ, String, Bool, true, false, ◌&&◌, some, List, [], ◌∷◌, ◌≡◌, refl, ap, str_eq, inl, inr, leb,
  ◌+◌, ◌*◌, Bool-cases, not, ◌≢◌, ◌⊎◌, Option, none,
}
use lucky_market.Auth.Checks.{error_if}
use lucky_market.Auth.Gateway.{Crypto, bytes_equal, match_bytes, verify_gateway_hmac_signature}
use lucky_market.Auth.Words.{
  trim_space, is_hex_digit, all_hex, is_hex_string, hex_value, hex_decode,
}

hex_value-is_hex_digit : (r : ℕ) → is_hex_digit r ≡ true → (v : ℕ) × (hex_value r ≡ some v)
hex_value-is_hex_digit r h = elim (Bool-cases (leb b'0' r && leb r b'9')) [
  | inl e ↦ rw e (_, refl)
  | inr e ↦ elim (Bool-cases (leb b'a' r && leb r b'f')) [
    | inl f ↦ rw (e, f) (_, refl)
    | inr f ↦ elim (Bool-cases (leb b'A' r && leb r b'F')) [
      | inl g ↦ rw (e, f, g) (_, refl)
      | inr g ↦ absurd (let k = rw (e, f, g) at h in cc)
    ]
  ]
]

both : (a b : Bool) → (a && b) ≡ true → (a ≡ true) × (b ≡ true)
both true b h = (refl, h)
both false b h = cc

all_hex-hex_decode :
    (s : String) → all_hex s ≡ true → (bytes : List ℕ) × (hex_decode s ≡ some bytes)
unfolding all_hex hex_decode
all_hex-hex_decode String.[] = λ h. ([], refl)
all_hex-hex_decode (String.◌∷◌ c String.[]) = λ h. cc
all_hex-hex_decode (String.◌∷◌ c (String.◌∷◌ d s)) = λ h.
    let (h1, h2) = both _ _ h in
    let (a, b) = both _ _ h1 in
    let (u, eu) = hex_value-is_hex_digit (code c) a in
    let (v, ev) = hex_value-is_hex_digit (code d) b in
    let (bytes, eb) = all_hex-hex_decode s h2 in ((u * 16 + v) ∷ bytes, rw (eu, ev, eb) refl)

is_hex_string-hex_decode :
    (s : String) → is_hex_string s ≡ true → (bytes : List ℕ) × (hex_decode s ≡ some bytes)
unfolding is_hex_string
is_hex_string-hex_decode String.[] = λ h. cc
is_hex_string-hex_decode (String.◌∷◌ c s) = all_hex-hex_decode (String.◌∷◌ c s)

abbrev is_not_hex : Option String → Bool
is_not_hex none = false
is_not_hex (some e) = str_eq e "gateway signature is not valid hex"

mismatch :
    (b : Bool)
    → error_if b "gateway signature does not match" ≢ some "gateway signature is not valid hex"
mismatch true = λ h. let k : false ≡ true = ap is_not_hex h in cc
mismatch false = λ h. let k : false ≡ true = ap is_not_hex h in cc

other_failure :
    (expected : List ℕ) (o : Option (List ℕ))
    → match_bytes "gateway signature must be hex or base64" expected o
      ≢ some "gateway signature is not valid hex"
other_failure expected none = λ h. let k : false ≡ true = ap is_not_hex h in cc
other_failure expected (some actual) = mismatch (not (bytes_equal actual expected))

-- Whatever base64 and HMAC are: a verification never answers that the signature is not valid hex. Where the
-- signature, without its white space, is taken for hex, it decodes to bytes, and the answer is an error
-- exactly if they are not those of the HMAC.
pub verify-hex_decode :
    (crypto : Crypto) (canonical signature : String) (secret : List ℕ)
    → (verify_gateway_hmac_signature crypto canonical signature secret
        ≢ some "gateway signature is not valid hex")
      × ((is_hex_string (trim_space signature) ≡ false)
          ⊎ ((bytes : List ℕ) × (hex_decode (trim_space signature) ≡ some bytes)
              × (verify_gateway_hmac_signature crypto canonical signature secret
                  ≡ error_if
                      (not (bytes_equal bytes (crypto.hmac_sha256 secret canonical)))
                      "gateway signature does not match")))
unfolding verify_gateway_hmac_signature
verify-hex_decode crypto canonical signature secret =
    elim (Bool-cases (is_hex_string (trim_space signature))) [
      | inr other ↦ rw other (
        other_failure (crypto.hmac_sha256 secret canonical)
            (crypto.base64_decode (trim_space signature)),
        inl refl,
      )
      | inl hex ↦
          let (bytes, decoded) = is_hex_string-hex_decode (trim_space signature) hex in
          rw (hex, decoded)
            (
              mismatch (not (bytes_equal bytes (crypto.hmac_sha256 secret canonical))),
              inr (bytes, refl, refl),
            )
    ]
