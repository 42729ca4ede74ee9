-- ===== src/Str/Decimal.antt =====
-- `to_string` of an unsigned number and `parse::<u64>()` of a text.
use s3xc.Prelude.{
  ℕ, zero, suc, ◌+◌, ◌-◌, ◌*◌, ◌/◌, ◌%◌, ◌^◌, ◌≤◌, ◌<◌, ◌≡◌, ◌≢◌, refl, sym, ap, ◌∙◌, ◌&&◌, inl,
  inr, Bool-cases, ltb→lt, Option, none, some, [], ◌∷◌, Text, All, arith, ltb, leb, ◌==◌,
  if◌then◌else◌,
}

-- The digits of `n` before `out`; a number has fewer digits than `n + 1`.
digits : ℕ → ℕ → Text → Text
digits zero n out = out
digits (suc fuel) n out =
    let here = (b'0' + n % 10) ∷ out in
    let rest = digits fuel (n / 10) here in if ltb n 10 then here else rest

-- `n.to_string()`, `format!("{}", n)`
unfoldable pub print : ℕ → Text
unfolding digits
print n = digits (suc n) n []

abbrev pub u64_max : ℕ
u64_max = 2 ^ 64 - 1

scan : Text → ℕ → Option ℕ
scan [] n = some n
scan (c ∷ s) n =
    let m = n * 10 + (c - b'0') in
    let rest = scan s m in
    if leb b'0' c && leb c b'9' then (if ltb u64_max m then none else rest) else none

-- `s.parse::<u64>().ok()`: one leading `+` is taken, an empty text and an overflow are errors.
unfoldable pub parse_u64 : Text → Option ℕ
unfolding scan
parse_u64 [] = none
parse_u64 (c ∷ []) = scan (c ∷ []) 0
parse_u64 (c ∷ d ∷ s) = if c == b'+' then scan (d ∷ s) 0 else scan (c ∷ d ∷ s) 0

abbrev pub IsDigit : ℕ → Type 0
IsDigit c = (b'0' ≤ c) × (c ≤ b'9')

digits-IsDigit : (fuel n : ℕ) (out : Text) → All IsDigit out → All IsDigit (digits fuel n out)
unfolding digits
digits-IsDigit zero n out h = h
digits-IsDigit (suc fuel) n out h =
    ground (arith, digits-IsDigit fuel (n / 10) ((b'0' + n % 10) ∷ out))

-- A printed number is digits alone.
pub print-IsDigit : (n : ℕ) → All IsDigit (print n)
unfolding print
print-IsDigit n = digits-IsDigit (suc n) n [] tt

-- Reading the last digit of `n` after the digits before it gives `n`.
scan_last : (n : ℕ) (out : Text) → n ≤ u64_max → scan ((b'0' + n % 10) ∷ out) (n / 10) ≡ scan out n
unfolding scan
scan_last n out h = ground arith

scan-digits :
    (fuel n : ℕ) (out : Text) → n < fuel → n ≤ u64_max → scan (digits fuel n out) 0 ≡ scan out n
unfolding digits
scan-digits zero n out h fits = absurd (omega arith)
scan-digits (suc fuel) n out h fits =
    ground
      (arith, scan-digits fuel (n / 10) ((b'0' + n % 10) ∷ out), scan_last n out fits, div_small n)
  where
    div_small : (m : ℕ) → m < 10 → m / 10 ≡ 0
    div_small m q = omega arith

digits-ne-nil : (fuel n : ℕ) (out : Text) → out ≢ [] → digits fuel n out ≢ []
unfolding digits
digits-ne-nil zero n out h = h
digits-ne-nil (suc fuel) n out h =
    ground (arith, digits-ne-nil fuel (n / 10) ((b'0' + n % 10) ∷ out))

pub print-ne-nil : (n : ℕ) → print n ≢ []
unfolding print digits
print-ne-nil n = ground (arith, digits-ne-nil n (n / 10) ((b'0' + n % 10) ∷ []))

parse_u64-scan : (s : Text) → s ≢ [] → All IsDigit s → parse_u64 s ≡ scan s 0
unfolding parse_u64
parse_u64-scan [] h d = absurd (h refl)
parse_u64-scan (c ∷ []) h d = refl
parse_u64-scan (c ∷ e ∷ s) h d = ground arith

-- Every `u64` is read back from its decimal print.
pub parse_u64-print : (n : ℕ) → n ≤ u64_max → parse_u64 (print n) ≡ some n
parse_u64-print n h =
    parse_u64-scan (print n) (print-ne-nil n) (print-IsDigit n)
    ∙ (unfold print scan in scan-digits (suc n) n [] (omega arith) h)

-- The number that digits spell behind `n`, with no bound.
value : Text → ℕ → ℕ
value [] n = n
value (c ∷ s) n = value s (n * 10 + (c - b'0'))

value-digits : (fuel n : ℕ) (out : Text) → n < fuel → value (digits fuel n out) 0 ≡ value out n
unfolding digits value
value-digits zero n out h = absurd (omega arith)
value-digits (suc fuel) n out h =
    let last : n / 10 * 10 + (b'0' + n % 10 - b'0') ≡ n = omega arith in
    let only : n < 10 → 0 * 10 + (b'0' + n % 10 - b'0') ≡ n = λ q. omega arith in
    elim (Bool-cases (ltb n 10)) [
      | inl small ↦ rw small (ap (value out) (only (ltb→lt n 10 small)))
      | inr large ↦
          rw large (
            value-digits fuel (n / 10) ((b'0' + n % 10) ∷ out) (ground arith) ∙ ap (value out) last)
    ]

value-print : (n : ℕ) → value (print n) 0 ≡ n
unfolding print value
value-print n = value-digits (suc n) n [] (omega arith)

-- Two numbers with one print are one number.
pub print_inj : (m n : ℕ) → print m ≡ print n → m ≡ n
print_inj m n e = sym (value-print m) ∙ ap (λ s. value s 0) e ∙ value-print n
