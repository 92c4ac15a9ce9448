-- ===== src/Auth/Canonical.antt =====
-- What the text that the gateway signs says.
use Prim.Native.Char.{code}
use lucky_market.Base.{
  ℕ, zero, suc, String, Bool, true, false, List, [], ◌∷◌, ◌≡◌, refl, ap, sym, ◌∙◌, inl, inr, ◌==◌,
  All, Bool-cases, if◌then◌else◌,
}
use lucky_market.Text.{concat, split, extend}
use lucky_market.Auth.{AuthInfo, GatewayOptions}
use lucky_market.Auth.Words.{join}
use lucky_market.Auth.Gateway.{build_gateway_canonical_string}

-- no line break
unfoldable pub is_line : String → Bool
is_line String.[] = true
is_line (String.◌∷◌ c s) = let rest = is_line s in if code c == 10 then false else rest

abbrev pub IsLine : String → Type 0
IsLine s = is_line s ≡ true

unfoldable drop : ℕ → String → String
drop zero s = s
drop (suc n) String.[] = ""
drop (suc n) (String.◌∷◌ c s) = drop n s

concat-IsLine : (p s : String) → IsLine p → IsLine s → IsLine (concat p s)
unfolding is_line concat
concat-IsLine String.[] s = λ hp hs. hs
concat-IsLine (String.◌∷◌ c p) s = elim (Bool-cases (code c == 10)) [
  | inl e ↦ rw e (λ hp hs. cc)
  | inr e ↦ rw e (λ hp hs. concat-IsLine p s hp hs)
]

split-last : (p : String) → IsLine p → split 10 p ≡ p ∷ []
unfolding is_line split
split-last String.[] = λ h. refl
split-last (String.◌∷◌ c p) = elim (Bool-cases (code c == 10)) [
  | inl e ↦ rw e (λ h. cc)
  | inr e ↦ rw e (λ h. ap (extend c) (split-last p h))
]

split-line : (p t : String) → IsLine p → split 10 (concat p (concat "\n" t)) ≡ p ∷ split 10 t
unfolding is_line split concat
split-line String.[] t = λ h. refl
split-line (String.◌∷◌ c p) t = elim (Bool-cases (code c == 10)) [
  | inl e ↦ rw e (λ h. cc)
  | inr e ↦ rw e (λ h. ap (extend c) (split-line p t h))
]

split-join :
    (x : String) (xs : List String) → All IsLine (x ∷ xs) → split 10 (join "\n" (x ∷ xs)) ≡ x ∷ xs
unfolding join
split-join x [] (h, hs) = split-last x h
split-join x (y ∷ ys) (h, hs) =
    split-line x (join "\n" (y ∷ ys)) h ∙ ap (λ l. x ∷ l) (split-join y ys hs)

-- the values of the lines, behind the eight labels
unfoldable unlabel : List ℕ → List String → List String
unfolding drop
unlabel [] xs = []
unlabel (n ∷ ns) [] = []
unlabel (n ∷ ns) (x ∷ xs) = drop n x ∷ unlabel ns xs

abbrev labels : List ℕ
labels = 8 ∷ 11 ∷ 10 ∷ 7 ∷ 9 ∷ 11 ∷ 10 ∷ 6 ∷ []

-- what is signed: five values of the info and three headers
abbrev pub signed_values : (String → String) → AuthInfo → GatewayOptions → List String
signed_values header info cfg =
    info.user_id
    ∷ info.session_id
    ∷ info.device_id
    ∷ info.issuer
    ∷ join "," info.audience
    ∷ header cfg.expire_header
    ∷ header cfg.timestamp_header
    ∷ header cfg.nonce_header
    ∷ []

abbrev lines : (String → String) → AuthInfo → GatewayOptions → List String
lines header info cfg =
    concat "user_id=" info.user_id
    ∷ concat "session_id=" info.session_id
    ∷ concat "device_id=" info.device_id
    ∷ concat "issuer=" info.issuer
    ∷ concat "audience=" (join "," info.audience)
    ∷ concat "expires_at=" (header cfg.expire_header)
    ∷ concat "timestamp=" (header cfg.timestamp_header)
    ∷ concat "nonce=" (header cfg.nonce_header)
    ∷ []

lines-IsLine :
    (header : String → String) (info : AuthInfo) (cfg : GatewayOptions)
    → All IsLine (signed_values header info cfg)
    → All IsLine (lines header info cfg)
unfolding is_line
lines-IsLine header info cfg (h1, (h2, (h3, (h4, (h5, (h6, (h7, (h8, u)))))))) = (
  concat-IsLine "user_id=" _ refl h1,
  (
    concat-IsLine "session_id=" _ refl h2,
    (
      concat-IsLine "device_id=" _ refl h3,
      (
        concat-IsLine "issuer=" _ refl h4,
        (
          concat-IsLine "audience=" _ refl h5,
          (
            concat-IsLine "expires_at=" _ refl h6,
            (concat-IsLine "timestamp=" _ refl h7, (concat-IsLine "nonce=" _ refl h8, tt)),
          ),
        ),
      ),
    ),
  ),
)

split-canonical :
    (header : String → String) (info : AuthInfo) (cfg : GatewayOptions)
    → All IsLine (signed_values header info cfg)
    → split 10 (build_gateway_canonical_string header info cfg) ≡ lines header info cfg
unfolding build_gateway_canonical_string
split-canonical header info cfg h = split-join _ _ (lines-IsLine header info cfg h)

unlabel-lines :
    (header : String → String) (info : AuthInfo) (cfg : GatewayOptions)
    → unlabel labels (lines header info cfg) ≡ signed_values header info cfg
unfolding unlabel drop concat
unlabel-lines header info cfg = refl

-- The text that is signed determines the signed values, where none of them has a line break: the user,
-- the session, the device, the issuer, the audience joined by commas, and the headers with the
-- expiration, the timestamp and the nonce.
pub canonical_binds :
    (header header' : String → String) (info info' : AuthInfo) (cfg : GatewayOptions)
    → All IsLine (signed_values header info cfg)
    → All IsLine (signed_values header' info' cfg)
    → build_gateway_canonical_string header info cfg
      ≡ build_gateway_canonical_string header' info' cfg
    → signed_values header info cfg ≡ signed_values header' info' cfg
canonical_binds header header' info info' cfg h h' same =
    sym (unlabel-lines header info cfg)
    ∙ ap (unlabel labels) (
        sym (split-canonical header info cfg h)
        ∙ ap (split 10) same
        ∙ split-canonical header' info' cfg h')
    ∙ unlabel-lines header' info' cfg
