-- ===== src/Server/Range.antt =====
-- `parse_range` of `src/server/handlers.rs`.
pub mod Bounds
pub mod Forms
use s3xc.Prelude.{
  ℕ, ◌+◌, ◌-◌, ◌%◌, ◌^◌, Bool, true, false, Option, none, some, List, [], ◌∷◌, Text, codes, drop,
  min, ltb, leb, if◌then◌else◌,
}
use s3xc.Options.{◌>>=◌}
use s3xc.Str.{starts_with, is_empty, trim}
use s3xc.Str.Decimal.{parse_u64}
use s3xc.Str.Split.{split}

-- `-500`: the last 500 bytes. `saturating_sub` is `-` on ℕ.
suffix_range : Text → ℕ → Option (ℕ × ℕ)
suffix_range end_str file_size = do num ← parse_u64 end_str; some (file_size - num, file_size)

-- `500-`: from byte 500 to the end.
open_range : Text → ℕ → Option (ℕ × ℕ)
open_range start_str file_size = do
  start ← parse_u64 start_str
  if leb file_size start then some (file_size, file_size) else some (start, file_size)

-- `500-1000`: both ends included. The sum `end_incl + 1` is a `u64`, which wraps around.
closed_range : Text → Text → ℕ → Option (ℕ × ℕ)
closed_range start_str end_str file_size = do
  start ← parse_u64 start_str
  end_incl ← parse_u64 end_str
  let end = min ((end_incl + 1) % 2 ^ 64) file_size
  if ltb end start then none else some (start, end)

range_of : Text → Text → ℕ → Option (ℕ × ℕ)
unfolding suffix_range open_range closed_range
range_of start_str end_str file_size =
    if is_empty start_str
    then (if is_empty end_str then none else suffix_range end_str file_size)
    else if is_empty end_str
    then open_range start_str file_size
    else closed_range start_str end_str file_size

-- The test on `parts.len()` is the pattern.
range_parts : List Text → ℕ → Option (ℕ × ℕ)
unfolding range_of
range_parts (start_part ∷ end_part ∷ []) file_size =
    range_of (trim start_part) (trim end_part) file_size
range_parts _ file_size = none

-- The start and the exclusive end of a `Range` header.
unfoldable pub parse_range : Text → ℕ → Option (ℕ × ℕ)
unfolding range_parts
parse_range range_val file_size =
    if starts_with range_val (codes "bytes=")
    then range_parts (split b'-' (drop 6 range_val)) file_size
    else none
