-- ===== src/Cache/Copy/Whole.antt =====
-- What `copy_cache_object` leaves of a known source, at the destination.
use s3xc.Prelude.{
  ℕ, ◌+◌, ◌*◌, ◌<◌, ◌≡◌, ◌≢◌, refl, sym, ap, ◌∙◌, true, false, inl, inr, some, Text, text_eq,
  text_eq_iff, arith, leb, ltb, ◌&&◌, Bool-cases, if◌then◌else◌,
}
use s3xc.Io.{Result, ok}
use s3xc.External.{Env, World}
use s3xc.External.Path.{path_eq_iff}
use s3xc.External.Works.{EnvWorks}
use s3xc.Cache.Keys.{object_key, chunk_key, chunk_key_inj}
use s3xc.Cache.Metadata
use s3xc.Cache.Metadata.Types.{ObjectMetadata}
use s3xc.Cache.Metadata.Laws.{objects, chunks, get_object-objects, put_object-ObjectAt}
use s3xc.Cache.Storage.Paths.{chunk_path_inj}
use s3xc.Cache.Storage.Laws.{chunk_file, same_file}
use s3xc.Cache.Coordinator.{CacheCoordinator}
use s3xc.Cache.Drop.Laws.{num_chunks_lem}
use s3xc.Cache.Copy.{copy_object, copy_cache_object}
use s3xc.Cache.Copy.Round.{HasChunk, copied_entry, copied_file, keep, keep_entry, keep_file}
use s3xc.Cache.Copy.Laws.{copy_chunks-Copies}

module _ (env : Env) (works : EnvWorks env) (c : CacheCoordinator) (src dest : Text) where
  -- After the copy: the destination has the metadata of the source; of each chunk that its length
  -- counts it has what the source has, but keeps its own where the source has no complete one; and
  -- the source is as it was.
  pub record IsCopied (m : ObjectMetadata) (w : World env)
      (has : (i : ℕ) → HasChunk env works c src dest w i) (r : Result (Unit {0}) × World env)
      : Type 0 where
    pub returns : r.0 ≡ ok tt
    pub recorded :
        (j : Text)
        → objects env works r.1.db j
          ≡ (if text_eq dest j then ok (some m) else objects env works w.db j)
    pub entries :
        (i : ℕ)
        → i * c.chunk_size < m.content_length
        → chunks env works r.1.db (chunk_key dest i)
          ≡ copied_entry env works c src dest (has i) (chunks env works w.db (chunk_key dest i))
    pub files :
        (i : ℕ)
        → i * c.chunk_size < m.content_length
        → chunk_file env works c.storage r.1.disk dest i
          ≡ copied_file env works c src dest (has i) (chunk_file env works c.storage w.disk dest i)
    pub source_entries :
        (i : ℕ)
        → chunks env works r.1.db (chunk_key src i) ≡ chunks env works w.db (chunk_key src i)
    pub source_files :
        (i : ℕ)
        → chunk_file env works c.storage r.1.disk src i
          ≡ chunk_file env works c.storage w.disk src i
    pub remote_lem : r.1.remote ≡ w.remote

  keys_apart :
      env.sha256_hex src ≢ env.sha256_hex dest
      → (n i : ℕ) → text_eq (chunk_key dest n) (chunk_key src i) ≡ false
  keys_apart ne n i = elim (Bool-cases (text_eq (chunk_key dest n) (chunk_key src i))) [
    | inl same ↦
        absurd
          (ne (sym (ap env.sha256_hex (chunk_key_inj dest src n i ((text_eq_iff _ _).0 same)).0)))
    | inr other ↦ other
  ]

  files_apart :
      env.sha256_hex src ≢ env.sha256_hex dest
      → (n i : ℕ) → same_file env works c.storage dest n src i ≡ false
  files_apart ne n i = elim (Bool-cases (same_file env works c.storage dest n src i)) [
    | inl same ↦ absurd (
        ne (
          sym
            (chunk_path_inj env works.digest c.storage dest src n i ((path_eq_iff _ _).0 same)).0))
    | inr other ↦ other
  ]

  copy_object-IsCopied :
      (m : ObjectMetadata) (w : World env) (has : (i : ℕ) → HasChunk env works c src dest w i)
      → 0 < c.chunk_size
      → env.sha256_hex src ≢ env.sha256_hex dest
      → IsCopied m w has (copy_object env c src dest (some m) w)
  unfolding copy_object
  copy_object-IsCopied m w has pos ne =
      let (rounds, e, within) = num_chunks_lem env works c m.content_length pos in
      let put = put_object-ObjectAt env works dest m w.db in
      let w' : World env = record w { db = (Metadata.put_object env dest m w.db).1 } in
      let p = λ (i : ℕ). put.chunks_lem (chunk_key src i) in
      let loop =
        copy_chunks-Copies env works c src dest (keys_apart ne) (files_apart ne) rounds 0 w'
          (λ i. keep env works c src dest {w = w} {w' = w'} (has i) (p i) refl) in
      let in_range : (i : ℕ) → i < rounds → (leb 0 i && ltb i (0 + rounds)) ≡ true =
        λ i h. ground arith in
      rw (put.returns, e, loop.ends)
        (record {
          returns = refl;
          recorded = λ j. loop.objects_lem j ∙ put.objects_lem j;
          entries = λ i h.
              loop.entries i
              ∙ rw
                  (
                    in_range i (within i h),
                    keep_entry env works c src dest w' (has i) (p i) refl,
                    put.chunks_lem (chunk_key dest i),
                  )
                  refl;
          files = λ i h.
              loop.files i
              ∙ rw (in_range i (within i h), keep_file env works c src dest w' (has i) (p i) refl)
                  refl;
          source_entries = λ i.
              loop.other_entries (chunk_key src i) (λ n. keys_apart ne n i)
              ∙ put.chunks_lem (chunk_key src i);
          source_files = λ i. loop.other_files src i (λ n. files_apart ne n i);
          remote_lem = loop.remote_lem;
        })

-- For a positive chunk size, the copy of a known object, each of whose chunks has no entry, an
-- incomplete one, or a complete one with its file, to a key with another digest, returns; the
-- destination has the metadata of the source, and of each chunk that its length counts the entry
-- and the file of the source. But where the source has no complete chunk, the destination keeps
-- the chunk that it had. The source is as it was.
pub copy_cache-IsCopied :
    (env : Env) (works : EnvWorks env) (c : CacheCoordinator)
    (src_bucket src_key dest_bucket dest_key : Text) (m : ObjectMetadata) (w : World env)
    (has : (i : ℕ)
      → HasChunk env works c (object_key src_bucket src_key) (object_key dest_bucket dest_key) w i)
    → 0 < c.chunk_size
    → env.sha256_hex (object_key src_bucket src_key)
      ≢ env.sha256_hex (object_key dest_bucket dest_key)
    → objects env works w.db (object_key src_bucket src_key) ≡ ok (some m)
    → IsCopied env works c
        (object_key src_bucket src_key)
        (object_key dest_bucket dest_key)
        m
        w
        has
        (copy_cache_object env c src_bucket src_key dest_bucket dest_key w)
unfolding copy_cache_object
copy_cache-IsCopied env works c src_bucket src_key dest_bucket dest_key m w has pos ne known =
    rw (get_object-objects env works (object_key src_bucket src_key), known)
      (copy_object-IsCopied env works c (object_key src_bucket src_key)
        (object_key dest_bucket dest_key) m w has pos ne)
