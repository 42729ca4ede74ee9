-- ===== src/Server/Range/Forms.antt =====
-- What `parse_range` makes of each of the three forms of a range of bytes.
use s3xc.Prelude.{
  ℕ, ◌+◌, ◌-◌, ◌≤◌, ◌<◌, ◌≡◌, ◌≢◌, refl, false, none, some, [], ◌∷◌, ◌++◌, Text, All, codes, arith,
  min, ltb, if◌then◌else◌,
}
use s3xc.Str.{starts_with, is_empty}
use s3xc.Str.Decimal.{print, u64_max, IsDigit, print-IsDigit, print-ne-nil, parse_u64-print}
use s3xc.Str.Split.{Lacks, split-append}
use s3xc.Str.Trim.{trim-IsDigit}
use s3xc.Server.Range.{range_of, range_parts, parse_range}

digits-Lacks : (s : Text) → All IsDigit s → Lacks b'-' s
digits-Lacks [] h = tt
digits-Lacks (c ∷ s) h = (omega arith, digits-Lacks s h.1)

-- Behind `bytes=`, two texts of digits around the dash are the two parts.
parse_range-digits :
    (s t : Text) (n : ℕ)
    → All IsDigit s
    → All IsDigit t
    → parse_range (codes "bytes=" ++ (s ++ b'-' ∷ t)) n ≡ range_of s t n
unfolding parse_range starts_with range_parts
parse_range-digits s t n hs ht = ground (
  arith,
  split-append b'-' s t (digits-Lacks s hs) (digits-Lacks t ht),
  trim-IsDigit s hs,
  trim-IsDigit t ht,
)

-- A non-empty text is not tested as empty.
print-is_empty : (a : ℕ) → is_empty (print a) ≡ false
print-is_empty a = go (print a) (print-ne-nil a)
  where
    go : (s : Text) → s ≢ [] → is_empty s ≡ false
    go [] h = absurd (h refl)
    go (c ∷ s) h = refl

-- `bytes=a-b` with `a` of 64 bits and `b` below the largest such number: the bytes from `a` to
-- `b` inside the object. A range is refused that starts later than right behind `b`, or later than
-- right behind the last byte of the object; one that starts right there is accepted, and empty.
pub parse_range_closed :
    (a b n : ℕ)
    → a ≤ u64_max
    → b < u64_max
    → parse_range (codes "bytes=" ++ (print a ++ b'-' ∷ print b)) n
      ≡ (if ltb (min (b + 1) n) a then none else some (a, min (b + 1) n))
unfolding range_of
parse_range_closed a b n ha hb = ground (
  arith,
  parse_range-digits (print a) (print b) n (print-IsDigit a) (print-IsDigit b),
  print-is_empty a,
  print-is_empty b,
  parse_u64-print a ha,
  parse_u64-print b (omega arith),
)

-- `bytes=a-` for `a` of 64 bits: from `a`, or from the end of a shorter object, to the end.
pub parse_range_open :
    (a n : ℕ)
    → a ≤ u64_max
    → parse_range (codes "bytes=" ++ (print a ++ b'-' ∷ [])) n ≡ some (min a n, n)
unfolding range_of
parse_range_open a n ha = ground (
  arith,
  parse_range-digits (print a) [] n (print-IsDigit a) tt,
  print-is_empty a,
  parse_u64-print a ha,
)

-- `bytes=-k` for `k` of 64 bits: the last `k` bytes, or the whole of a shorter object.
pub parse_range_suffix :
    (k n : ℕ)
    → k ≤ u64_max
    → parse_range (codes "bytes=" ++ ([] ++ b'-' ∷ print k)) n ≡ some (n - k, n)
unfolding range_of
parse_range_suffix k n hk = ground (
  arith,
  parse_range-digits [] (print k) n tt (print-IsDigit k),
  print-is_empty k,
  parse_u64-print k hk,
)

-- With the largest number of 64 bits as the last byte the sum `end_incl + 1` wraps to 0: a range
-- that asks for all bytes from `a` on is refused where `a` is positive, and empty where it is 0.
pub parse_range_wraps :
    (a n : ℕ)
    → a ≤ u64_max
    → parse_range (codes "bytes=" ++ (print a ++ b'-' ∷ print u64_max)) n
      ≡ (if ltb 0 a then none else some (0, 0))
unfolding range_of
parse_range_wraps a n ha = ground (
  arith,
  parse_range-digits (print a) (print u64_max) n (print-IsDigit a) (print-IsDigit u64_max),
  print-is_empty a,
  print-is_empty u64_max,
  parse_u64-print a ha,
  parse_u64-print u64_max (omega arith),
)
