-- ===== src/Tests/Codec.antt =====
-- A code of the metadata in lists of numbers.
use s3xc.Prelude.{
  ℕ, zero, suc, ◌≡◌, refl, Option, none, some, [], ◌∷◌, ◌++◌, Bytes, Text, length, take, drop,
  take-append_left, drop-append_left, take_all, drop_all, arith,
}
use s3xc.Prelude.Int.{ℤ, pos, negsuc}
use s3xc.Io.{Result, ok, err, error, attempt}
use s3xc.External.{Serde}
use s3xc.External.Works.{SerdeWorks}
use s3xc.Cache.Metadata.Types.{ObjectMetadata, ChunkStatus, ChunkMetadata, complete, downloading}

abbrev pub sign : ℤ → ℕ
sign (pos n) = 0
sign (negsuc n) = 1

abbrev pub size_of : ℤ → ℕ
size_of (pos n) = n
size_of (negsuc n) = n

abbrev number : ℕ → ℕ → ℤ
number zero n = pos n
number (suc k) n = negsuc n

abbrev pub tag : Option Text → ℕ
tag none = 0
tag (some t) = 1

abbrev pub text : Option Text → Text
text none = []
text (some t) = t

abbrev optional : ℕ → Text → Option Text
optional zero t = none
optional (suc k) t = some t

abbrev pub tag_of : ChunkStatus → ℕ
tag_of complete = 0
tag_of downloading = 1

abbrev status_of : ℕ → ChunkStatus
status_of zero = complete
status_of (suc k) = downloading

abbrev pub encode_object : ObjectMetadata → Bytes
encode_object m =
    m.content_length
    ∷ sign m.last_modified
    ∷ size_of m.last_modified
    ∷ tag m.content_type
    ∷ length (text m.content_type)
    ∷ tag m.etag
    ∷ (text m.content_type ++ text m.etag)

abbrev decode_object : Bytes → Result ObjectMetadata
decode_object (n ∷ s ∷ z ∷ c ∷ l ∷ e ∷ rest) = ok (record {
  content_length = n;
  content_type = optional c (take l rest);
  etag = optional e (drop l rest);
  last_modified = number s z;
})
decode_object _ = err (error [])

abbrev pub encode_chunk : ChunkMetadata → Bytes
encode_chunk m =
    m.size ∷ sign m.last_accessed_at ∷ size_of m.last_accessed_at ∷ tag_of m.status ∷ []

abbrev decode_chunk : Bytes → Result ChunkMetadata
decode_chunk (n ∷ s ∷ z ∷ c ∷ rest) =
    ok (record { size = n; last_accessed_at = number s z; status = status_of c })
decode_chunk _ = err (error [])

abbrev pub object_json : Serde ObjectMetadata
object_json = record { to_vec = λ m. ok (encode_object m); from_slice = decode_object }

abbrev pub chunk_json : Serde ChunkMetadata
chunk_json = record { to_vec = λ m. ok (encode_chunk m); from_slice = decode_chunk }

number_lem : (z : ℤ) → number (sign z) (size_of z) ≡ z
number_lem (pos n) = refl
number_lem (negsuc n) = refl

optional_lem : (t : Option Text) → optional (tag t) (text t) ≡ t
optional_lem none = refl
optional_lem (some t) = refl

status_lem : (s : ChunkStatus) → status_of (tag_of s) ≡ s
status_lem complete = refl
status_lem downloading = refl

take_first : (s t : Text) → take (length s) (s ++ t) ≡ s
take_first s t =
    rw (take-append_left (length s) s t (omega arith)) (take_all (length s) s (omega arith))

drop_first : (s t : Text) → drop (length s) (s ++ t) ≡ t
drop_first s t =
    rw (drop-append_left (length s) s t (omega arith), drop_all (length s) s (omega arith)) refl

decode_object-encode : (m : ObjectMetadata) → decode_object (encode_object m) ≡ ok m
decode_object-encode m =
    let c = take_first (text m.content_type) (text m.etag) in
    let e = drop_first (text m.content_type) (text m.etag) in
    rw (c, e, number_lem m.last_modified, optional_lem m.content_type, optional_lem m.etag) refl

decode_chunk-encode : (m : ChunkMetadata) → decode_chunk (encode_chunk m) ≡ ok m
decode_chunk-encode m = rw (number_lem m.last_accessed_at, status_lem m.status) refl

object_returns : (b : Bytes) → (r : Result ObjectMetadata) × (attempt (decode_object b) ≡ ok r)
object_returns [] = (_, refl)
object_returns (n ∷ []) = (_, refl)
object_returns (n ∷ s ∷ []) = (_, refl)
object_returns (n ∷ s ∷ z ∷ []) = (_, refl)
object_returns (n ∷ s ∷ z ∷ c ∷ []) = (_, refl)
object_returns (n ∷ s ∷ z ∷ c ∷ l ∷ []) = (_, refl)
object_returns (n ∷ s ∷ z ∷ c ∷ l ∷ e ∷ rest) = (_, refl)

chunk_returns : (b : Bytes) → (r : Result ChunkMetadata) × (attempt (decode_chunk b) ≡ ok r)
chunk_returns [] = (_, refl)
chunk_returns (n ∷ []) = (_, refl)
chunk_returns (n ∷ s ∷ []) = (_, refl)
chunk_returns (n ∷ s ∷ z ∷ []) = (_, refl)
chunk_returns (n ∷ s ∷ z ∷ c ∷ rest) = (_, refl)

pub object_works : SerdeWorks object_json
object_works = record {
  round_trip = λ m. (encode_object m, refl, decode_object-encode m);
  decode_returns = object_returns;
}

pub chunk_works : SerdeWorks chunk_json
chunk_works = record {
  round_trip = λ m. (encode_chunk m, refl, decode_chunk-encode m);
  decode_returns = chunk_returns;
}
