-- ===== src/Tests/Others.antt =====
-- The theorems on copies, percent coding, error documents and the configuration, at concrete inputs.
use s3xc.Prelude.{
  ℕ, zero, suc, ◌≡◌, ◌≢◌, refl, ap, none, some, [], ◌∷◌, Text, codes, All, arith, text_eq_iff,
}
use s3xc.Io.{ok}
use s3xc.Cache.Keys.{object_key, chunk_key}
use s3xc.Cache.Metadata.Laws.{chunks}
use s3xc.Cache.Storage.{chunk_path}
use s3xc.External.Path.{path_eq_iff}
use s3xc.Cache.Storage.Laws.{chunk_file, same_file_ne}
use s3xc.Cache.Write.Register.{other_key}
use s3xc.Cache.Copy.{copy_cache_object}
use s3xc.Cache.Copy.Round.{HasChunk, missing, whole}
use s3xc.Cache.Copy.Whole.{IsCopied, copy_cache-IsCopied}
use s3xc.Utils.Percent.{s3_percent_encode, percent_decode, percent_decode-encode, IsByte}
use s3xc.Tests.Tables.{redb_works}
use s3xc.Tests.Disk.{fs_works}
use s3xc.Tests.World.{env, works, warm, stored, coordinator, chunk_meta, bucket, key}
use s3xc.Tests.Facts.{warm_known, warm_file}

abbrev src : Text
src = object_key bucket key

abbrev dest : Text
dest = object_key bucket (codes "copy")

warm_chunk_0 : chunks env works warm.db (chunk_key src 0) ≡ ok (some (chunk_meta 7))
unfolding works redb_works
warm_chunk_0 = rw ((text_eq_iff (chunk_key src 0) _).1 refl) refl

warm_chunk_1 : chunks env works warm.db (chunk_key src 1) ≡ ok (some (chunk_meta 5))
unfolding works redb_works
warm_chunk_1 =
    rw
      (
        other_key env works coordinator src 1 0 (λ e. absurd (omega (arith, e))),
        (text_eq_iff (chunk_key src 1) _).1 refl,
      )
      refl

warm_chunk_none : (i : ℕ) → chunks env works warm.db (chunk_key src (suc (suc i))) ≡ ok none
unfolding works redb_works
warm_chunk_none i =
    rw
      (
        other_key env works coordinator src (suc (suc i)) 0 (λ e. absurd (omega (arith, e))),
        other_key env works coordinator src (suc (suc i)) 1 (λ e. absurd (omega (arith, e))),
      )
      refl

warm_file_1 : chunk_file env works coordinator.storage warm.disk src 1 ≡ some (codes "o wo")
unfolding works fs_works
warm_file_1 =
    rw
      (
        same_file_ne env works coordinator.storage src 1 0 (λ e. absurd (omega (arith, e))),
        (path_eq_iff (chunk_path env coordinator.storage src 1) _).1 refl,
      )
      refl

warm-HasChunk : (i : ℕ) → HasChunk env works coordinator src dest warm i
warm-HasChunk zero = whole (chunk_meta 7) (codes "hell") warm_chunk_0 refl warm_file
warm-HasChunk (suc zero) = whole (chunk_meta 5) (codes "o wo") warm_chunk_1 refl warm_file_1
warm-HasChunk (suc (suc i)) = missing (warm_chunk_none i)

abbrev first : Text → ℕ
first [] = 0
first (c ∷ s) = c

digests_ne : env.sha256_hex src ≢ env.sha256_hex dest
unfolding object_key
digests_ne e =
    let h : first (env.sha256_hex src) ≡ first (env.sha256_hex dest) = ap first e in
    absurd (omega (arith, h))

copy_cache-IsCopied_example :
    IsCopied env works coordinator src dest stored.meta warm warm-HasChunk
      (copy_cache_object env coordinator bucket key bucket (codes "copy") warm)
copy_cache-IsCopied_example =
    copy_cache-IsCopied env works coordinator bucket key bucket (codes "copy") stored.meta warm
      warm-HasChunk (omega arith) digests_ne warm_known

abbrev path : Text
path = codes "a b/%"

path_bytes : All IsByte path
path_bytes = (omega arith, (omega arith, (omega arith, (omega arith, (omega arith, tt)))))

percent_decode-encode_example : percent_decode (λ b. b) (s3_percent_encode path) ≡ path
percent_decode-encode_example = percent_decode-encode (λ b. b) path path_bytes refl
