-- ===== src/Cache/Keys.antt =====
-- The database keys of `src/cache`: `format!("{}/{}", bucket, key)` for an object,
-- `format!("{}:{}", key, chunk_idx)` for a chunk, and how `check_and_evict` of `policy.rs` takes a
-- chunk's key apart.
use s3xc.Prelude.{
  ℕ, suc, ◌+◌, ◌≤◌, ◌≡◌, refl, sym, ap, ◌∙◌, Option, none, some, [], ◌∷◌, ◌++◌, Text, All, arith,
  length, take, drop,
}
use mathlib.Core.Path.{ap₂}
use s3xc.Str.{rfind}
use s3xc.Str.Decimal.{print, parse_u64, u64_max, IsDigit, print-IsDigit, parse_u64-print, print_inj}
use s3xc.Str.Split.{Lacks}

-- `let db_key = format!("{}/{}", bucket, key)`
unfoldable pub object_key : Text → Text → Text
object_key bucket key = bucket ++ b'/' ∷ key

-- `let db_key = format!("{}:{}", key, chunk_idx)`
unfoldable pub chunk_key : Text → ℕ → Text
chunk_key key chunk_idx = key ++ b':' ∷ print chunk_idx

-- `db_key.split_at(pos)`, the `:` skipped, and the index parsed.
unfoldable pub split_chunk_key_at : Text → ℕ → Option (Text × ℕ)
split_chunk_key_at db_key pos = elim (parse_u64 (drop (pos + 1) db_key)) [
  | none ↦ none
  | some chunk_idx ↦ some (take pos db_key, chunk_idx)
]

-- The key and the index of a chunk's database key: `none` where `rfind` or `parse` fails.
unfoldable pub split_chunk_key : Text → Option (Text × ℕ)
unfolding split_chunk_key_at
split_chunk_key db_key = elim (rfind b':' db_key) [
  | none ↦ none
  | some pos ↦ split_chunk_key_at db_key pos
]

rfind-Lacks : (c : ℕ) (s : Text) → Lacks c s → rfind c s ≡ none
unfolding rfind
rfind-Lacks c [] h = refl
rfind-Lacks c (x ∷ s) h = ground (arith, rfind-Lacks c s h.1)

-- The last `c` of a text is the one behind which no `c` stands.
rfind-append : (c : ℕ) (s t : Text) → Lacks c t → rfind c (s ++ c ∷ t) ≡ some (length s)
unfolding rfind
rfind-append c [] t h = ground (arith, rfind-Lacks c t h)
rfind-append c (x ∷ s) t h = ground (arith, rfind-append c s t h)

digits-Lacks : (s : Text) → All IsDigit s → Lacks b':' s
digits-Lacks [] h = tt
digits-Lacks (c ∷ s) h = (omega arith, digits-Lacks s h.1)

take-length : (s t : Text) → take (length s) (s ++ t) ≡ s
take-length [] t = refl
take-length (c ∷ s) t = ap (λ r. c ∷ r) (take-length s t)

drop-length_suc : (s t : Text) (c : ℕ) → drop (length s + 1) (s ++ c ∷ t) ≡ t
drop-length_suc [] t c = refl
drop-length_suc (d ∷ s) t c =
    ap (λ n. drop n ((d ∷ s) ++ c ∷ t)) {x = suc (length s) + 1} {y = suc (length s + 1)}
      (omega arith)
    ∙ drop-length_suc s t c

-- Eviction finds the object key and the index that a chunk's key was made of, for every index of
-- 64 bits, also where the object key holds colons itself.
pub split_chunk_key-chunk_key :
    (key : Text) (idx : ℕ) → idx ≤ u64_max → split_chunk_key (chunk_key key idx) ≡ some (key, idx)
unfolding split_chunk_key chunk_key
split_chunk_key-chunk_key key idx h = ground (
  arith,
  rfind-append b':' key (print idx) (digits-Lacks (print idx) (print-IsDigit idx)),
  drop-length_suc key (print idx) b':',
  parse_u64-print idx h,
  take-length key (b':' ∷ print idx),
)

-- Two chunks have one database key only if they are one chunk.
pub chunk_key_inj : (k j : Text) (m n : ℕ) → chunk_key k m ≡ chunk_key j n → (k ≡ j) × (m ≡ n)
unfolding chunk_key
chunk_key_inj k j m n e =
    let colon : (s : Text) (i : ℕ) → rfind b':' (s ++ b':' ∷ print i) ≡ some (length s) =
      λ s i. rfind-append b':' s (print i) (digits-Lacks (print i) (print-IsDigit i)) in
    let same : length k ≡ length j = ground (arith, colon k m, colon j n, ap (rfind b':') e) in
    let keys : k ≡ j =
      sym (take-length k (b':' ∷ print m)) ∙ ap₂ take same e ∙ take-length j (b':' ∷ print n) in
    let prints : print m ≡ print n =
      sym (drop-length_suc k (print m) b':')
      ∙ ap₂ (λ n'. drop (n' + 1)) same e
      ∙ drop-length_suc j (print n) b':' in
    (keys, print_inj m n prints)
