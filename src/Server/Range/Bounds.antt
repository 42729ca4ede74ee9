-- ===== src/Server/Range/Bounds.antt =====
-- What `parse_range` returns lies inside the object.
use s3xc.Prelude.{ℕ, ◌≤◌, ◌≡◌, some, List, [], ◌∷◌, Text, drop, arith}
use s3xc.Str.{trim}
use s3xc.Str.Split.{split}
use s3xc.Server.Range.{range_of, range_parts, parse_range}

abbrev pub InObject : ℕ → ℕ → ℕ → Type 0
InObject file_size start end = (start ≤ end) × (end ≤ file_size)

range_of_bounds :
    (a b : Text) (file_size start end : ℕ)
    → range_of a b file_size ≡ some (start, end)
    → InObject file_size start end
unfolding range_of
range_of_bounds a b file_size start end h = ground arith

range_parts_bounds :
    (parts : List Text) (file_size start end : ℕ)
    → range_parts parts file_size ≡ some (start, end)
    → InObject file_size start end
unfolding range_parts
range_parts_bounds (a ∷ b ∷ []) n start end h = range_of_bounds (trim a) (trim b) n start end h
range_parts_bounds [] n start end h = cc
range_parts_bounds (a ∷ []) n start end h = cc
range_parts_bounds (a ∷ b ∷ c ∷ r) n start end h = cc

-- Whatever the header says, an accepted range starts no later than it ends, and ends inside the
-- object.
pub parse_range_bounds :
    (range_val : Text) (file_size start end : ℕ)
    → parse_range range_val file_size ≡ some (start, end)
    → (start ≤ end) × (end ≤ file_size)
unfolding parse_range
parse_range_bounds r n start end h =
    ground (arith, range_parts_bounds (split b'-' (drop 6 r)) n start end)
