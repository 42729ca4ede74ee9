-- ===== src/Tests/Store.antt =====
-- An upstream store of one object.
use s3xc.Prelude.{
  ℕ, ◌+◌, ◌-◌, ◌≤◌, ◌<◌, ◌≡◌, refl, inl, inr, Option, none, some, List, [], ◌∷◌, ◌++◌, Bytes, Text,
  codes, length, slice, min, arith, leb, leb→le, Bool-cases, append-nil, if◌then◌else◌,
}
use s3xc.Prelude.Int.{pos}
use s3xc.Io.{Result, ok, err, error}
use s3xc.Str.Decimal.{u64_max}
use s3xc.External.{Upstream}
use s3xc.External.Remote.{Stored, UpstreamReads}
use s3xc.Cache.Metadata.Types.{ObjectMetadata}
use s3xc.Cache.Read.{range_header}
use s3xc.Server.Range.{parse_range}
use s3xc.Server.Range.Forms.{parse_range_closed}

-- The object with these bytes.
abbrev pub of_bytes : Bytes → Stored
of_bytes b = record {
  bytes = b;
  meta = record {
    content_length = length b;
    content_type = none;
    etag = some (codes "tag");
    last_modified = pos 1;
  };
}

-- Longer objects than a `u64` counts are not stored.
abbrev pub object_of : Option Bytes → Option Stored
object_of none = none
object_of (some b) = if leb (length b) u64_max then some (of_bytes b) else none

abbrev head : Option Stored → Result Stored
head none = err (error (codes "no such key"))
head (some s) = ok s

abbrev range_of : Bytes → Option (ℕ × ℕ) → Result (List (Result Bytes))
range_of b none = err (error (codes "invalid range"))
range_of b (some r) = ok (ok (slice r.0 r.1 b) ∷ [])

abbrev pub read : Option Stored → Text → Result (List (Result Bytes))
read none header = err (error (codes "no such key"))
read (some s) header = range_of s.bytes (parse_range header (length s.bytes))

abbrev gathered : List (Result Bytes) → Bytes
gathered [] = []
gathered (ok b ∷ pieces) = b ++ gathered pieces
gathered (err e ∷ pieces) = []

abbrev meta_of : Result Stored → Result ObjectMetadata
meta_of (ok s) = ok s.meta
meta_of (err e) = err e

abbrev pub upstream : Upstream
upstream = record {
  Remote = Option Bytes;
  head_object = λ bucket key r. (meta_of (head (object_of r)), r);
  get_object_range_stream = λ bucket key header r. (read (object_of r) header, r);
  put_object_stream = λ bucket key body n t r. (ok (codes "tag"), some (gathered body));
  delete_object = λ bucket key r. (ok tt, none);
  copy_object = λ b k b' k' r. (ok (codes "tag"), r);
}

pub small : (r : Option Bytes) (s : Stored) → object_of r ≡ some s → length s.bytes ≤ u64_max
small none s e = cc
small (some b) s e = elim (Bool-cases (leb (length b) u64_max)) [
  | inl le ↦ let same : s ≡ of_bytes b = ground (arith, le, e) in rw same (leb→le _ _ le)
  | inr gt ↦ ground arith
]

pub meta_small :
    (r : Option Bytes) (s : Stored) → object_of r ≡ some s → s.meta.content_length ≡ length s.bytes
meta_small none s e = cc
meta_small (some b) s e = elim (Bool-cases (leb (length b) u64_max)) [
  | inl le ↦ let same : s ≡ of_bytes b = ground (arith, le, e) in rw same refl
  | inr gt ↦ ground arith
]

pub object_of_lem : (r : Option Bytes) (s : Stored) → object_of r ≡ some s → s ≡ of_bytes s.bytes
object_of_lem none s e = cc
object_of_lem (some b) s e = elim (Bool-cases (leb (length b) u64_max)) [
  | inl le ↦ let same : s ≡ of_bytes b = ground (arith, le, e) in rw same refl
  | inr gt ↦ ground arith
]

pub read_lem :
    (r : Option Bytes) (s : Stored) (a b : ℕ)
    → object_of r ≡ some s
    → a < b
    → b ≤ length s.bytes
    → read (object_of r) (range_header a b) ≡ ok (ok (slice a b s.bytes) ∷ [])
unfolding range_header
read_lem r s a b e less fits =
    let le = small r s e in
    let got = parse_range_closed a (b - 1) (length s.bytes) (omega arith) (omega arith) in
    let end : min (b - 1 + 1) (length s.bytes) ≡ b = omega arith in rw (e, got, end) (ground arith)

unfoldable pub upstream_reads : UpstreamReads upstream
upstream_reads = record {
  stored = λ r bucket key. object_of r;
  head_lem = λ r bucket key s e. rw e refl;
  length_lem = λ r bucket key s e. meta_small r s e;
  head_keeps = λ r bucket key. refl;
  range_lem = λ r bucket key s a b e less fits.
      (slice a b s.bytes ∷ [], read_lem r s a b e less fits, append-nil (slice a b s.bytes));
  range_keeps = λ r bucket key header. refl;
}
