-- ===== src/Text.antt =====
-- What the program uses of Go's strings and strconv packages, and pkg/common/common.go: Split at a
-- one-byte separator, ParseInt and Atoi of base ten on 64 bits, FormatInt.
pub mod RoundTrip
use Prim.Native.Char.{Char, code}
use lucky_market.Base.{
  ℕ, zero, suc, ◌+◌, ◌-◌, ◌*◌, ◌/◌, ◌%◌, ◌^◌, String, Bool, true, false, ◌||◌, Option, none, some,
  List, [], ◌∷◌, ◌≡◌, refl, arith, ltb, leb, ◌==◌, if◌then◌else◌,
}
use lucky_market.Base.Int.{ℤ, pos, negsuc}

-- common.SPLIT, common.SPACE and common.COLON
abbrev pub comma : ℕ
comma = b','

abbrev pub space : ℕ
space = b' '

abbrev pub colon : ℕ
colon = b':'

-- s + t
unfoldable pub concat : String → String → String
concat String.[] t = t
concat (String.◌∷◌ c s) t = String.◌∷◌ c (concat s t)

-- a character in front of the first part
abbrev pub extend : Char → List String → List String
extend c [] = String.◌∷◌ c "" ∷ []
extend c (p ∷ ps) = String.◌∷◌ c p ∷ ps

-- strings.Split
unfoldable pub split : ℕ → String → List String
split sep String.[] = "" ∷ []
split sep (String.◌∷◌ c s) =
    let rest = split sep s in if code c == sep then "" ∷ rest else extend c rest

-- the digits of `s`, read behind the number `n`; none if one is no digit
unfoldable pub scan : ℕ → String → Option ℕ
scan n String.[] = some n
scan n (String.◌∷◌ c s) =
    let rest = scan (n * 10 + (code c - b'0')) s in
    if ltb (code c) b'0' || ltb b'9' (code c) then none else rest

-- strconv.ParseUint without its bound: at least one digit, and nothing but digits
unfoldable pub digits : String → Option ℕ
digits String.[] = none
digits (String.◌∷◌ c s) = scan 0 (String.◌∷◌ c s)

abbrev pub below_64 : Option ℕ → Option ℤ
below_64 none = none
below_64 (some n) = if ltb n (2 ^ 63) then some (pos n) else none

abbrev pub above_64 : Option ℕ → Option ℤ
above_64 none = none
above_64 (some zero) = some (pos 0)
above_64 (some (suc n)) = if ltb n (2 ^ 63) then some (negsuc n) else none

-- strconv.ParseInt(s, 10, 64), and strconv.Atoi on a 64-bit machine; none is an error
unfoldable pub parse_int : String → Option ℤ
parse_int String.[] = none
parse_int (String.◌∷◌ c s) =
    if code c == b'-'
    then above_64 (digits s)
    else if code c == b'+'
    then below_64 (digits s)
    else below_64 (digits (String.◌∷◌ c s))

-- one decimal digit in front of a text
unfoldable pub put_digit : ℕ → String → String
put_digit zero s = concat "0" s
put_digit (suc zero) s = concat "1" s
put_digit (suc (suc zero)) s = concat "2" s
put_digit (suc (suc (suc zero))) s = concat "3" s
put_digit (suc (suc (suc (suc zero)))) s = concat "4" s
put_digit (suc (suc (suc (suc (suc zero))))) s = concat "5" s
put_digit (suc (suc (suc (suc (suc (suc zero)))))) s = concat "6" s
put_digit (suc (suc (suc (suc (suc (suc (suc zero))))))) s = concat "7" s
put_digit (suc (suc (suc (suc (suc (suc (suc (suc zero)))))))) s = concat "8" s
put_digit _ s = concat "9" s

-- the last digits first; `fuel` bounds the number of digits
unfoldable pub emit : ℕ → ℕ → String → String
emit zero n out = out
emit (suc fuel) n out =
    let out' = put_digit (n % 10) out in
    let more = emit fuel (n / 10) out' in if n / 10 == 0 then out' else more

unfoldable pub format_nat : ℕ → String
unfolding emit put_digit concat
format_nat n = emit (suc n) n ""

-- strconv.FormatInt(i, 10) and strconv.Itoa
unfoldable pub format_int : ℤ → String
unfolding format_nat concat
format_int (pos n) = format_nat n
format_int (negsuc n) = concat "-" (format_nat (suc n))
