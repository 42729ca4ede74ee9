-- ===== src/Cache/Read/Plan.antt =====
-- The plan of `read_range` covers the range: its parts are inside their chunks, and together they
-- are the bytes of the range, in order.
use s3xc.Prelude.{
  ℕ, zero, suc, ◌+◌, ◌-◌, ◌*◌, ◌/◌, ◌^◌, ◌≤◌, ◌<◌, ◌≡◌, ap, ◌∙◌, List, [], ◌∷◌, ◌++◌, Bytes, length,
  take, drop, slice, slice-append_slice, concat, map, All, append-nil, min, max, arith,
}
use s3xc.Io.{ok, div}
use s3xc.Cache.Chunks.{chunk_bytes, part-slice}
use s3xc.Cache.Coordinator.{u64}
use s3xc.Cache.Read.{ReadFuture, nothing, chunk, chunk_part, chunk_parts, read_plan}

-- A future reads at least one byte, inside its chunk and inside the object.
abbrev pub Fits : ℕ → ℕ → ReadFuture → Type 0
Fits cs n nothing = ⊥
Fits cs n (chunk idx off len) = (0 < len) × (off + len ≤ cs) × (idx * cs + off + len ≤ n)

-- What a future asks for.
abbrev pub part_bytes : ℕ → Bytes → ReadFuture → Bytes
part_bytes cs object nothing = []
part_bytes cs object (chunk idx off len) = take len (drop off (chunk_bytes cs idx object))

module _ (cs : ℕ) (object : Bytes) (start end : ℕ) (pos : 0 < cs) (inside : end ≤ length object)
    (small : length object + cs ≤ 2 ^ 64) where
  -- The numbers of a part, with no `u64` wrapped around and the object's end out of sight.
  part_eq :
      (idx : ℕ)
      → idx * cs < end
      → chunk_part cs (length object) start end idx
        ≡ chunk idx
            (max start (idx * cs) - idx * cs)
            (min end (idx * cs + cs) - max start (idx * cs))
  unfolding chunk_part
  part_eq idx k =
      let low : u64 (idx * cs) ≡ idx * cs = omega arith in
      let high : min end (min (u64 ((idx + 1) * cs)) (length object)) ≡ min end (idx * cs + cs) =
        omega arith in
      simp (low, high)

  part-Fits :
      (idx : ℕ)
      → start < idx * cs + cs
      → idx * cs < end
      → start < end
      → Fits cs (length object) (chunk_part cs (length object) start end idx)
  part-Fits idx h k l = rw (part_eq idx k) (omega arith, omega arith, omega arith)

  part_bytes_lem :
      (idx : ℕ)
      → start < idx * cs + cs
      → idx * cs < end
      → start < end
      → part_bytes cs object (chunk_part cs (length object) start end idx)
        ≡ slice (max start (idx * cs)) (min end (idx * cs + cs)) object
  part_bytes_lem idx h k l = rw (part_eq idx k) (
      part-slice cs idx _ _ object (omega arith)
      ∙ ap (λ a. slice a (a + (min end (idx * cs + cs) - max start (idx * cs))) object)
          {x = idx * cs + (max start (idx * cs) - idx * cs)} {y = max start (idx * cs)}
          (omega arith)
      ∙ ap (λ b. slice (max start (idx * cs)) b object)
          {x = max start (idx * cs) + (min end (idx * cs + cs) - max start (idx * cs))}
          {y = min end (idx * cs + cs)} (omega arith))

  parts_lem :
      (rounds idx : ℕ)
      → start < idx * cs + cs
      → (idx + rounds) * cs < end
      → start < end
      → All (Fits cs (length object)) (chunk_parts cs (length object) start end (suc rounds) idx)
        × (concat (
              map
                (part_bytes cs object)
                (chunk_parts cs (length object) start end (suc rounds) idx))
            ≡ slice (max start (idx * cs)) (min end ((idx + rounds) * cs + cs)) object)
  unfolding chunk_parts
  parts_lem zero idx h k l =
      let k' : idx * cs < end = omega arith in
      let e : idx * cs ≡ (idx + 0) * cs = omega arith in
      (
        (part-Fits idx h k' l, tt),
        append-nil _
            ∙ part_bytes_lem idx h k' l
            ∙ ap (λ t. slice (max start (idx * cs)) (min end (t + cs)) object) e,
      )
  parts_lem (suc rounds) idx h k l =
      let k' : idx * cs + cs < end = grind arith in
      let (fits, bytes) = parts_lem rounds (idx + 1) (omega arith) (omega arith) l in
      (
        (part-Fits idx h (omega arith) l, fits),
        ap
              (λ t.
                t
                ++ concat (
                    map (part_bytes cs object)
                      (chunk_parts cs (length object) start end (suc rounds) (idx + 1))))
              (part_bytes_lem idx h (omega arith) l)
            ∙ ap (λ t. slice (max start (idx * cs)) (min end (idx * cs + cs)) object ++ t) bytes
            ∙ ap
                (λ t.
                  slice (max start (idx * cs)) t object
                  ++ slice (max start ((idx + 1) * cs)) (min end ((idx + 1 + rounds) * cs + cs))
                      object)
                {x = min end (idx * cs + cs)} {y = max start ((idx + 1) * cs)} (omega arith)
            ∙ slice-append_slice (max start (idx * cs)) (max start ((idx + 1) * cs))
                (min end ((idx + 1 + rounds) * cs + cs)) object (omega arith) (omega arith)
            ∙ ap (λ t. slice (max start (idx * cs)) (min end (t + cs)) object)
                {x = (idx + 1 + rounds) * cs} {y = (idx + suc rounds) * cs} (omega arith),
      )

-- For a positive chunk size and an object whose length and a chunk fit in 64 bits, a range that
-- is not empty is planned: each future reads at least a byte, inside its chunk and inside the
-- object, and what the futures read, one behind the other, is the bytes from `start` up to `end`
-- or the object's end.
pub read_plan-covers :
    (cs : ℕ) (object : Bytes) (start end : ℕ)
    → 0 < cs
    → length object + cs ≤ 2 ^ 64
    → start < min end (length object)
    → (parts : List ReadFuture) × (read_plan cs (length object) start end ≡ ok parts)
      × All (Fits cs (length object)) parts
      × (concat (map (part_bytes cs object) parts) ≡ slice start (min end (length object)) object)
unfolding read_plan div
read_plan-covers cs object start end' pos small some_bytes =
    let end = min end' (length object) in
    let first = start / cs in
    let last = (end - 1) / cs in
    let rounds = last - first in
    let first_le : first * cs ≤ start = grind arith in
    let first_gt : start < first * cs + cs = grind arith in
    let last_le : last * cs ≤ end - 1 = grind arith in
    let last_gt : end - 1 < last * cs + cs = grind arith in
    let ordered : first ≤ last = grind arith in
    let sum : first + rounds ≡ last = omega arith in
    let reach : (first + rounds) * cs < end = rw sum (omega arith) in
    let (fits, bytes) =
      parts_lem cs object start end pos (omega arith) small rounds first first_gt reach
        some_bytes in
    let count : last + 1 - first ≡ suc rounds = omega arith in
    (
      chunk_parts cs (length object) start end (suc rounds) first,
      ground (arith, count),
      fits,
      bytes
          ∙ ap (λ a. slice a (min end ((first + rounds) * cs + cs)) object)
              {x = max start (first * cs)} {y = start} (omega arith)
          ∙ ap (λ b. slice start b object) {x = min end ((first + rounds) * cs + cs)} {y = end}
              (rw sum (omega arith)),
    )

-- A range that is empty, or begins behind the object's end, is one empty item.
pub read_plan_empty :
    (cs n start end : ℕ) → min end n ≤ start → read_plan cs n start end ≡ ok (nothing ∷ [])
unfolding read_plan
read_plan_empty cs n start end h = ground arith
