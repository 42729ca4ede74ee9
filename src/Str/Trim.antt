-- ===== src/Str/Trim.antt =====
-- `trim` leaves a number alone.
use s3xc.Prelude.{◌≡◌, refl, ◌∙◌, ap, [], ◌∷◌, Text, All, arith}
use s3xc.Str.{trim_start, trim_end, trim}
use s3xc.Str.Decimal.{IsDigit}

trim_start-IsDigit : (s : Text) → All IsDigit s → trim_start s ≡ s
unfolding trim_start
trim_start-IsDigit [] h = refl
trim_start-IsDigit (c ∷ s) h = ground arith

trim_end-IsDigit : (s : Text) → All IsDigit s → trim_end s ≡ s
unfolding trim_end
trim_end-IsDigit [] h = refl
trim_end-IsDigit (c ∷ s) h = ground (arith, trim_end-IsDigit s h.1)

pub trim-IsDigit : (s : Text) → All IsDigit s → trim s ≡ s
unfolding trim
trim-IsDigit s h = ap trim_end (trim_start-IsDigit s h) ∙ trim_end-IsDigit s h
