-- ===== src/Cache/Chunks.antt =====
-- The chunks of an object, and parts of them as slices of the object.
use s3xc.Prelude.{
  ℕ, ◌+◌, ◌-◌, ◌*◌, ◌≤◌, ◌≡◌, ap, ◌∙◌, Bytes, length, take, drop, slice, drop-drop, drop-take,
  take-take_le, ◌++◌, drop-append_left, take-append_left, length-take, length-drop, arith,
}

-- Chunk `idx` of an object cut at every `chunk_size` bytes.
abbrev pub chunk_bytes : ℕ → ℕ → Bytes → Bytes
chunk_bytes chunk_size idx object = take chunk_size (drop (idx * chunk_size) object)

-- A part of a chunk is the slice of the object at the chunk's place.
pub part-slice :
    (cs idx off len : ℕ) (object : Bytes)
    → off + len ≤ cs
    → take len (drop off (chunk_bytes cs idx object))
      ≡ slice (idx * cs + off) (idx * cs + off + len) object
part-slice cs idx off len object h =
    ap (take len) (drop-take off cs (drop (idx * cs) object))
    ∙ take-take_le len (cs - off) _ (omega arith)
    ∙ ap (take len) (drop-drop off (idx * cs) object)
    ∙ ap (λ n. take n (drop (idx * cs + off) object)) {x = len}
        {y = idx * cs + off + len - (idx * cs + off)} (omega arith)

-- A chunk is as long as the object reaches.
pub length-chunk_bytes :
    (cs idx n : ℕ) (object : Bytes)
    → n ≤ cs
    → idx * cs + n ≤ length object
    → n ≤ length (chunk_bytes cs idx object)
length-chunk_bytes cs idx n object h k =
    omega (arith, length-take cs (drop (idx * cs) object), length-drop (idx * cs) object)

-- A chunk that is full stays as it is when the object grows.
pub chunk_bytes-append :
    (cs idx : ℕ) (object more : Bytes)
    → idx * cs + cs ≤ length object
    → chunk_bytes cs idx (object ++ more) ≡ chunk_bytes cs idx object
chunk_bytes-append cs idx object more h =
    ap (take cs) (drop-append_left (idx * cs) object more (omega arith))
    ∙ take-append_left cs (drop (idx * cs) object) more
        (omega (arith, length-drop (idx * cs) object))
