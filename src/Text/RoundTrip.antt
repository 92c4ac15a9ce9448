-- ===== src/Text/RoundTrip.antt =====
-- ParseInt reads back what FormatInt wrote.
use lucky_market.Base.{
  ℕ, zero, suc, ◌+◌, ◌*◌, ◌/◌, ◌%◌, ◌^◌, ◌<◌, String, some, ◌≡◌, refl, arith, Bool-cases, inl, inr,
  ◌==◌, ◌∙◌, ap, ◌≢◌, sym,
}
use lucky_market.Base.Int.{ℤ, pos, negsuc}
use lucky_market.Text.{
  concat, scan, digits, parse_int, put_digit, emit, format_nat, format_int, above_64, below_64,
}

-- The values of a 64-bit signed integer.
abbrev pub IsInt64 : ℤ → Type 0
IsInt64 (pos n) = n < 2 ^ 63
IsInt64 (negsuc n) = n < 2 ^ 63

-- a digit that was put in front is the first that is read
scan-put_digit : (n d : ℕ) (s : String) → d < 10 → scan n (put_digit d s) ≡ scan (n * 10 + d) s
unfolding scan put_digit concat
scan-put_digit n zero s h = refl
scan-put_digit n (suc zero) s h = refl
scan-put_digit n (suc (suc zero)) s h = refl
scan-put_digit n (suc (suc (suc zero))) s h = refl
scan-put_digit n (suc (suc (suc (suc zero)))) s h = refl
scan-put_digit n (suc (suc (suc (suc (suc zero))))) s h = refl
scan-put_digit n (suc (suc (suc (suc (suc (suc zero)))))) s h = refl
scan-put_digit n (suc (suc (suc (suc (suc (suc (suc zero))))))) s h = refl
scan-put_digit n (suc (suc (suc (suc (suc (suc (suc (suc zero)))))))) s h = refl
scan-put_digit n (suc (suc (suc (suc (suc (suc (suc (suc (suc zero))))))))) s h = refl
scan-put_digit n (suc (suc (suc (suc (suc (suc (suc (suc (suc (suc d)))))))))) s h =
    absurd (omega arith)

-- a text that begins with a digit is read with no sign
unsigned :
    (d : ℕ) (s : String)
    → (digits (put_digit d s) ≡ scan 0 (put_digit d s))
      × (parse_int (put_digit d s) ≡ below_64 (digits (put_digit d s)))
unfolding digits parse_int put_digit concat
unsigned zero s = (refl, refl)
unsigned (suc zero) s = (refl, refl)
unsigned (suc (suc zero)) s = (refl, refl)
unsigned (suc (suc (suc zero))) s = (refl, refl)
unsigned (suc (suc (suc (suc zero)))) s = (refl, refl)
unsigned (suc (suc (suc (suc (suc zero))))) s = (refl, refl)
unsigned (suc (suc (suc (suc (suc (suc zero)))))) s = (refl, refl)
unsigned (suc (suc (suc (suc (suc (suc (suc zero))))))) s = (refl, refl)
unsigned (suc (suc (suc (suc (suc (suc (suc (suc zero)))))))) s = (refl, refl)
unsigned _ s = (refl, refl)

-- reading the digits of `n` from the left gives `n`
scan-emit : (fuel n : ℕ) (out : String) → n < fuel → scan 0 (emit fuel n out) ≡ scan n out
unfolding emit
scan-emit zero n out h = elim h [ ]
scan-emit (suc fuel) n out h = elim (Bool-cases (n / 10 == 0)) [
  | inl last ↦ rw last (
      scan-put_digit 0 (n % 10) out (omega arith)
      ∙ ap (λ (k : ℕ). scan k out) (let z : n / 10 ≡ 0 = ground arith in omega arith))
  | inr more ↦ rw more (
      scan-emit fuel (n / 10) (put_digit (n % 10) out)
        (let z : n / 10 ≢ 0 = ground arith in omega arith)
      ∙ scan-put_digit (n / 10) (n % 10) out (omega arith)
      ∙ ap (λ (k : ℕ). scan k out) (omega arith))
]

-- the text begins with a digit
emit-put_digit :
    (fuel n : ℕ) (out : String) → (d : ℕ) × (s : String) × (emit (suc fuel) n out ≡ put_digit d s)
unfolding emit
emit-put_digit zero n out = (n % 10, out, ground arith)
emit-put_digit (suc fuel) n out = elim (Bool-cases (n / 10 == 0)) [
  | inl last ↦ (n % 10, out, rw last)
  | inr more ↦
      let (d, s, e) = emit-put_digit fuel (n / 10) (put_digit (n % 10) out) in (d, s, rw more e)
]

digits-format_nat : (n : ℕ) → digits (format_nat n) ≡ some n
unfolding format_nat
digits-format_nat n =
    let (d, s, e) = emit-put_digit n n "" in
    ap digits e
    ∙ (unsigned d s).0
    ∙ ap (scan 0) (sym e)
    ∙ scan-emit (suc n) n "" (omega arith)
    ∙ (unfold scan in refl)

parse_int-format_nat : (n : ℕ) → parse_int (format_nat n) ≡ below_64 (some n)
unfolding format_nat
parse_int-format_nat n =
    let (d, s, e) = emit-put_digit n n "" in
    ap parse_int e ∙ (unsigned d s).1 ∙ ap below_64 (ap digits (sym e) ∙ digits-format_nat n)

below_64_fits : (n : ℕ) → n < 2 ^ 63 → below_64 (some n) ≡ some (pos n)
below_64_fits n h = ground arith

above_64_fits : (n : ℕ) → n < 2 ^ 63 → above_64 (some (suc n)) ≡ some (negsuc n)
above_64_fits n h = ground arith

-- ParseInt reads back every int64 that FormatInt wrote.
pub parse_int-format_int : (i : ℤ) → IsInt64 i → parse_int (format_int i) ≡ some i
unfolding format_int parse_int
parse_int-format_int (pos n) h = parse_int-format_nat n ∙ below_64_fits n h
parse_int-format_int (negsuc n) h = ap above_64 (digits-format_nat (suc n)) ∙ above_64_fits n h
