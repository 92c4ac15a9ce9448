-- ===== src/Auth/Words.antt =====
-- What internal/server/middleware/auth.go does with texts: strings.TrimSpace, ToLower, HasPrefix and
-- Join, trimSlice, splitAndTrim, containsString, isHexString and hex.DecodeString. Header values are
-- ASCII to ToLower and to a slice of bytes.
use Prim.Native.Char.{code}
use lucky_market.Base.{
  ℕ, ◌+◌, ◌-◌, ◌*◌, String, Bool, true, false, ◌&&◌, ◌||◌, Option, none, some, List, [], ◌∷◌,
  str_eq, leb, ◌==◌, if◌then◌else◌,
}
use lucky_market.Text.{concat, split}

-- unicode.IsSpace
abbrev pub is_space : ℕ → Bool
is_space c =
    leb 9 c && leb c 13
    || c == 32
    || c == 133
    || c == 160
    || c == 5760
    || leb 8192 c && leb c 8202
    || c == 8232
    || c == 8233
    || c == 8239
    || c == 8287
    || c == 12288

unfoldable pub trim_left : String → String
trim_left String.[] = ""
trim_left (String.◌∷◌ c s) =
    let rest = trim_left s in if is_space (code c) then rest else String.◌∷◌ c s

-- a trailing space is one with nothing but spaces behind it
unfoldable pub trim_right : String → String
trim_right String.[] = ""
trim_right (String.◌∷◌ c s) =
    let rest = trim_right s in if is_space (code c) && str_eq rest "" then "" else String.◌∷◌ c rest

-- strings.TrimSpace
unfoldable pub trim_space : String → String
unfolding trim_left trim_right
trim_space s = trim_left (trim_right s)

-- strings.ToLower, on the code of a character
abbrev pub lower : ℕ → ℕ
lower c = if leb b'A' c && leb c b'Z' then c + 32 else c

-- what follows the prefix `p` of the text, with the case of letters ignored; none if it has another
unfoldable pub strip_fold : String → String → Option String
strip_fold String.[] s = some s
strip_fold (String.◌∷◌ c p) String.[] = none
strip_fold (String.◌∷◌ c p) (String.◌∷◌ d s) =
    let rest = strip_fold p s in if lower (code c) == lower (code d) then rest else none

unfoldable pub join : String → List String → String
join sep [] = ""
join sep (x ∷ []) = x
join sep (x ∷ y ∷ xs) = concat x (concat sep (join sep (y ∷ xs)))

unfoldable pub trim_slice : List String → List String
trim_slice [] = []
trim_slice (x ∷ xs) =
    let item = trim_space x in
    let rest = trim_slice xs in if str_eq item "" then rest else item ∷ rest

unfoldable pub split_and_trim : String → ℕ → List String
split_and_trim value sep = if str_eq (trim_space value) "" then [] else trim_slice (split sep value)

unfoldable pub contains_string : List String → String → Bool
contains_string [] target = false
contains_string (x ∷ xs) target = if str_eq x target then true else contains_string xs target

abbrev pub is_hex_digit : ℕ → Bool
is_hex_digit r =
    (leb b'0' r && leb r b'9') || (leb b'a' r && leb r b'f') || (leb b'A' r && leb r b'F')

-- an even number of characters, each a digit
unfoldable pub all_hex : String → Bool
all_hex String.[] = true
all_hex (String.◌∷◌ c String.[]) = false
all_hex (String.◌∷◌ c (String.◌∷◌ d s)) =
    let rest = all_hex s in is_hex_digit (code c) && is_hex_digit (code d) && rest

unfoldable pub is_hex_string : String → Bool
unfolding all_hex
is_hex_string String.[] = false
is_hex_string (String.◌∷◌ c s) = all_hex (String.◌∷◌ c s)

abbrev pub hex_value : ℕ → Option ℕ
hex_value r =
    if leb b'0' r && leb r b'9'
    then some (r - b'0')
    else if leb b'a' r && leb r b'f'
    then some (r - b'a' + 10)
    else if leb b'A' r && leb r b'F'
    then some (r - b'A' + 10)
    else none

abbrev pub join_byte : Option ℕ → Option ℕ → Option (List ℕ) → Option (List ℕ)
join_byte (some h) (some l) (some bytes) = some ((h * 16 + l) ∷ bytes)
join_byte _ _ _ = none

-- hex.DecodeString: none if the length is odd or a character is no digit
unfoldable pub hex_decode : String → Option (List ℕ)
hex_decode String.[] = some []
hex_decode (String.◌∷◌ c String.[]) = none
hex_decode (String.◌∷◌ c (String.◌∷◌ d s)) =
    join_byte (hex_value (code c)) (hex_value (code d)) (hex_decode s)
