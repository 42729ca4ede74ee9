-- ===== src/Server/Handlers/Copies.antt =====
-- The copy source that `put_object_handler` reads.
use s3xc.Prelude.{ℕ, ◌≡◌, ◌≢◌, refl, ap, ◌∙◌, some, [], ◌∷◌, ◌++◌, Bytes, Text, All, arith}
use s3xc.Str.Cut.{find-append, find-Lacks, cut_at, trim_slash, trim_none}
use s3xc.Str.Split.{Lacks, splitn2-append}
use s3xc.Utils.Percent.{
  s3_percent_encode, percent_decode, decode_bytes, decode_bytes-encode, IsByte,
}
use s3xc.Server.Handlers.Change.{cut_query, copy_source}

-- A byte that is no percent sign is decoded as it is.
decode_cons : (b : ℕ) (s : Text) → b ≢ b'%' → decode_bytes (b ∷ s) ≡ b ∷ decode_bytes s
unfolding decode_bytes
decode_cons b [] h = refl
decode_cons b (x ∷ []) h = ground arith
decode_cons b (x ∷ y ∷ s) h = ground arith

decode-append : (s t : Text) → Lacks b'%' s → decode_bytes (s ++ t) ≡ s ++ decode_bytes t
decode-append [] t h = refl
decode-append (b ∷ s) t h = decode_cons b (s ++ t) h.0 ∙ ap (λ r. b ∷ r) (decode-append s t h.1)

-- The header that the client of `src/proxy/mod.rs` sends for a copy.
abbrev pub copy_header : (src_bucket src_key : Text) → Text
copy_header src_bucket src_key = b'/' ∷ src_bucket ++ b'/' ∷ s3_percent_encode src_key

slash : Lacks b'%' (b'/' ∷ [])
slash = ground arith

copy_source-cut_query :
    (from_utf8_lossy : Bytes → Text) (b : ℕ) (bucket key : Text)
    → Lacks b'/' (b ∷ bucket)
    → Lacks b'%' (b ∷ bucket)
    → All IsByte key
    → from_utf8_lossy (b'/' ∷ (b ∷ bucket) ++ b'/' ∷ key) ≡ b'/' ∷ (b ∷ bucket) ++ b'/' ∷ key
    → copy_source from_utf8_lossy (copy_header (b ∷ bucket) key) ≡ some (b ∷ bucket, cut_query key)
unfolding copy_source percent_decode
copy_source-cut_query from_utf8_lossy b bucket key no_slash no_percent bytes valid =
    let decoded : decode_bytes (copy_header (b ∷ bucket) key) ≡ b'/' ∷ (b ∷ bucket) ++ b'/' ∷ key =
      decode_cons b'/' _ slash.0
      ∙ ap (λ r. b'/' ∷ r)
          (decode-append (b ∷ bucket) _ no_percent
            ∙ ap (λ r. (b ∷ bucket) ++ r)
                (decode_cons b'/' _ slash.0
                  ∙ ap (λ r. b'/' ∷ r) (decode_bytes-encode key bytes))) in
    rw
      (
        decoded,
        valid,
        trim_slash ((b ∷ bucket) ++ b'/' ∷ key),
        trim_none b (bucket ++ b'/' ∷ key) no_slash.0,
        splitn2-append b'/' (b ∷ bucket) key no_slash,
      )
      refl

-- A key with no question mark is read whole; any other is cut.
cut_query_lem :
    (key : Text)
    → (Lacks b'?' key → cut_query key ≡ key)
      × ((rest : Text) → Lacks b'?' key → cut_query (key ++ b'?' ∷ rest) ≡ key)
unfolding cut_query
cut_query_lem key = (
  λ h. rw (cut_query, find-Lacks key h) refl,
  λ rest h. rw (cut_query, find-append key rest h) (cut_at key (b'?' ∷ rest)).0,
)

-- The bucket of a copy header is read back, for one that is not empty and has no slash and no
-- percent sign, and the key is read back whole, whatever its bytes, if it has no question mark; of a
-- key that has one, only what is in front of the first.
pub copy_source-copy_header :
    (from_utf8_lossy : Bytes → Text) (b : ℕ) (bucket key : Text)
    → Lacks b'/' (b ∷ bucket)
    → Lacks b'%' (b ∷ bucket)
    → All IsByte key
    → from_utf8_lossy (b'/' ∷ (b ∷ bucket) ++ b'/' ∷ key) ≡ b'/' ∷ (b ∷ bucket) ++ b'/' ∷ key
    → (Lacks b'?' key
        → copy_source from_utf8_lossy (copy_header (b ∷ bucket) key) ≡ some (b ∷ bucket, key))
      × ((front rest : Text)
          → key ≡ front ++ b'?' ∷ rest
          → Lacks b'?' front
          → copy_source from_utf8_lossy (copy_header (b ∷ bucket) key) ≡ some (b ∷ bucket, front))
copy_source-copy_header from_utf8_lossy b bucket key no_slash no_percent bytes valid =
    let cut = copy_source-cut_query from_utf8_lossy b bucket key no_slash no_percent bytes valid in
    (
      λ whole. cut ∙ ap (λ k. some (b ∷ bucket, k)) ((cut_query_lem key).0 whole),
      λ front rest e first.
          cut
          ∙ ap (λ k. some (b ∷ bucket, k)) (ap cut_query e ∙ (cut_query_lem front).1 rest first),
    )
