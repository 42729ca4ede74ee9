-- ===== src/Cache/Flight/Download.antt =====
-- `download_and_cache_chunk` of `src/cache/mod.rs`: one chunk from upstream to the disk and the
-- database.
use s3xc.Prelude.{
  ℕ, ◌-◌, ◌%◌, ◌^◌, ◌≤◌, ◌<◌, ◌≡◌, refl, ap, ◌∙◌, not, true, some, [], ◌++◌, Bytes, Text, codes,
  length, ◌==◌, if◌then◌else◌, slice, arith, map, drop, length-take, length-drop, ==_iff,
  text_eq_refl,
}
use s3xc.Io.{error, Result, ok, Io, raise, lift, ◌>>=◌, ◌>>◌}
use s3xc.Prelude.Int.{as_i64}
use s3xc.Str.Decimal.{print}
use s3xc.External.{Env, World, on_db, on_disk, on_remote}
use s3xc.External.Works.{EnvWorks}
use s3xc.External.Remote.{Stored, UpstreamReads}
use s3xc.Cache.Metadata
use s3xc.Cache.Metadata.Types.{ChunkMetadata, complete}
use s3xc.Cache.Metadata.Laws.{chunks, put_chunk-ChunkAt}
use s3xc.Cache.Storage.Laws.{chunk_file, write_chunk_lem, same_file_self}
use s3xc.Cache.Read.Serve.{gather-map}
use s3xc.Cache.Keys.{chunk_key}
use s3xc.Cache.Storage
use s3xc.Cache.Coordinator.{CacheCoordinator, now_secs}
use s3xc.Cache.Read.{range_header, gather}

module _ (env : Env) (c : CacheCoordinator) (bucket key db_key : Text) where
  -- The chunk as it came, on the disk and in the database.
  unfoldable pub store_chunk : (chunk_idx chunk_size : ℕ) → Bytes → Io (World env) (Unit {0})
  store_chunk chunk_idx chunk_size buffer = do
    on_disk (Storage.write_chunk env c.storage db_key chunk_idx buffer)
    now ← now_secs env
    on_db (
        Metadata.put_chunk env db_key chunk_idx
          (record { size = chunk_size % 2 ^ 32; last_accessed_at = now; status = complete }))

  -- The subtractions are those of `u64`; the callers' ends lie behind the starts.
  unfoldable pub download_and_cache_chunk :
      (chunk_idx start_byte end_byte : ℕ) → Io (World env) (Unit {0})
  unfolding store_chunk range_header gather
  download_and_cache_chunk chunk_idx start_byte end_byte = do
    stream ←
        on_remote
          (env.upstream.get_object_range_stream bucket key (range_header start_byte end_byte))
    let chunk_size = end_byte - start_byte
    buffer ← lift (gather stream [])
    if not (length buffer == chunk_size)
        then raise (
            error (
              codes "Upstream chunk size mismatch. Expected "
              ++ print chunk_size
              ++ codes " bytes, got "
              ++ print (length buffer)
              ++ codes " bytes."))
        else store_chunk chunk_idx chunk_size buffer

module _ (env : Env) (works : EnvWorks env) (up : UpstreamReads env.upstream) (c : CacheCoordinator)
    (bucket key db_key : Text) (s : Stored) where
  -- The chunk is on disk with these bytes, and its entry is complete, with its size.
  pub record IsDownloaded (chunk_idx : ℕ) (bytes : Bytes) (r : Result (Unit {0}) × World env)
      : Type 0 where
    pub returns : r.0 ≡ ok tt
    pub file_lem : chunk_file env works c.storage r.1.disk db_key chunk_idx ≡ some bytes
    pub entry : ChunkMetadata
    pub entry_lem : chunks env works r.1.db (chunk_key db_key chunk_idx) ≡ ok (some entry)
    pub complete_lem : entry.status ≡ complete
    pub size_lem : entry.size ≡ length bytes
    pub stored_lem : up.stored r.1.remote bucket key ≡ some s

  store_chunk-IsDownloaded :
      (chunk_idx size : ℕ) (bytes : Bytes) (w : World env)
      → length bytes ≡ size
      → size < 2 ^ 32
      → up.stored w.remote bucket key ≡ some s
      → IsDownloaded chunk_idx bytes (store_chunk env c bucket key db_key chunk_idx size bytes w)
  unfolding store_chunk now_secs
  store_chunk-IsDownloaded chunk_idx size bytes w same small there =
      let m : ChunkMetadata = record {
        size = size % 2 ^ 32;
        last_accessed_at = as_i64 (env.clock w.readings);
        status = complete;
      } in
      let (wrote, files) = write_chunk_lem env works c.storage db_key chunk_idx bytes w.disk in
      let put = put_chunk-ChunkAt env works db_key chunk_idx m w.db in
      let k = chunk_key db_key chunk_idx in
      rw wrote (record {
        returns = put.returns;
        file_lem =
            files db_key chunk_idx ∙ rw (same_file_self env works c.storage db_key chunk_idx) refl;
        entry = m;
        entry_lem = put.chunks_lem k ∙ rw (text_eq_refl k) refl;
        complete_lem = refl;
        size_lem = omega (arith, same, small);
        stored_lem = there;
      })

  -- A range inside an upstream object, of less than 2 ^ 32 bytes and taken as a chunk, is downloaded: the chunk has exactly its
  -- bytes, and is recorded as complete with their number.
  pub download_and_cache_chunk-IsDownloaded :
      (chunk_idx a b : ℕ) (w : World env)
      → a < b
      → b ≤ length s.bytes
      → b - a < 2 ^ 32
      → up.stored w.remote bucket key ≡ some s
      → IsDownloaded chunk_idx
          (slice a b s.bytes)
          (download_and_cache_chunk env c bucket key db_key chunk_idx a b w)
  unfolding download_and_cache_chunk
  download_and_cache_chunk-IsDownloaded chunk_idx a b w some_asked inside small there =
      let (pieces, got, whole) = up.range_lem w.remote bucket key s a b there some_asked inside in
      let gathered : gather (map ok pieces) [] ≡ ok (slice a b s.bytes) =
        gather-map pieces [] ∙ ap ok whole in
      let size : length (slice a b s.bytes) ≡ b - a =
        omega (arith, length-take (b - a) (drop a s.bytes), length-drop a s.bytes) in
      let full : (length (slice a b s.bytes) == b - a) ≡ true = (==_iff _ _).1 size in
      rw (got, gathered, full)
        (store_chunk-IsDownloaded chunk_idx (b - a) (slice a b s.bytes) _ size small
          (rw (up.range_keeps w.remote bucket key) there))
