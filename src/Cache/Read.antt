-- ===== src/Cache/Read.antt =====
-- `read_range` of `src/cache/mod.rs`: the plan of the reads, one for each chunk of the range, and
-- the reads themselves, made when the client takes the stream.
pub mod Plan
pub mod Serve
pub mod Fresh
pub mod Slice
use s3xc.Prelude.{
  ℕ, zero, suc, ◌+◌, ◌-◌, ◌*◌, Bool, false, Option, none, some, List, [], ◌∷◌, ◌++◌, Bytes, Text,
  codes, min, max, leb, if◌then◌else◌,
}
use s3xc.Io.{Result, ok, err, bind_result, div, Io, pure, lift, ◌>>=◌, ◌>>◌, catch}
use s3xc.Str.Decimal.{print}
use s3xc.External.{Env, World, on_db, on_disk, on_remote}
use s3xc.Cache.Keys.{object_key}
use s3xc.Cache.Metadata
use s3xc.Cache.Metadata.Types.{ChunkMetadata, is_complete}
use s3xc.Cache.Storage
use s3xc.Cache.Coordinator.{CacheCoordinator, u64, now_secs}
use s3xc.Cache.Drop.{get_object_metadata}

-- `format!("bytes={}-{}", read_start, read_end - 1)`
unfoldable pub range_header : ℕ → ℕ → Text
range_header read_start read_end =
    codes "bytes=" ++ (print read_start ++ b'-' ∷ print (read_end - 1))

-- A future of the stream: the one empty item, or the read of a part of a chunk.
pub data ReadFuture : Type 0 where
  nothing : ReadFuture
  chunk : (idx offset_in_chunk length_to_read : ℕ) → ReadFuture

-- The part of chunk `idx` that lies in the range.
unfoldable pub chunk_part : (chunk_size file_size start end idx : ℕ) → ReadFuture
chunk_part chunk_size file_size start end idx =
    let chunk_start_byte = u64 (idx * chunk_size) in
    let chunk_end_byte = min (u64 ((idx + 1) * chunk_size)) file_size in
    let read_start = max start chunk_start_byte in
    let read_end = min end chunk_end_byte in
    chunk idx (read_start - chunk_start_byte) (read_end - read_start)

-- `for idx in start_chunk..=end_chunk`, with the rounds left and the next index.
unfoldable pub chunk_parts : (chunk_size file_size start end rounds idx : ℕ) → List ReadFuture
unfolding chunk_part
chunk_parts chunk_size file_size start end zero idx = []
chunk_parts chunk_size file_size start end (suc rounds) idx =
    chunk_part chunk_size file_size start end idx
    ∷ chunk_parts chunk_size file_size start end rounds (idx + 1)

-- The futures of the range, by the size of the object.
unfoldable pub read_plan : (chunk_size file_size start end : ℕ) → Result (List ReadFuture)
unfolding chunk_parts
read_plan chunk_size file_size start end' =
    let end = min end' file_size in
    let parts : Result (List ReadFuture) = bind_result (div start chunk_size) λ start_chunk.
      bind_result (div (end - 1) chunk_size) λ end_chunk.
        ok (chunk_parts chunk_size file_size start end (end_chunk + 1 - start_chunk) start_chunk) in
    if leb end start then ok (nothing ∷ []) else parts

-- `while let Some(chunk_res) = stream.next().await`
unfoldable pub gather : List (Result Bytes) → Bytes → Result Bytes
gather [] buffer = ok buffer
gather (chunk_res ∷ stream) buffer = bind_result chunk_res λ bytes. gather stream (buffer ++ bytes)

-- The test on `get_chunk`: an error and a missing chunk are not cached.
pub is_cached : Result (Option ChunkMetadata) → Bool
is_cached (ok (some chunk_meta)) = is_complete chunk_meta.status
is_cached (ok none) = false
is_cached (err e) = false

module _ (env : Env) (c : CacheCoordinator) (bucket key : Text) where
  -- The access time of a cached chunk; errors are dropped.
  pub touch : ℕ → Result (Option ChunkMetadata) → Io (World env) (Unit {0})
  touch idx (ok (some chunk_meta)) = do
    now ← now_secs env
    catch (
        on_db (
          Metadata.put_chunk env (object_key bucket key) idx
            (record chunk_meta { last_accessed_at = now })))
    pure tt
  touch idx (ok none) = pure tt
  touch idx (err e) = pure tt

  pub hot_read : (idx offset_in_chunk length_to_read : ℕ) → Io (World env) Bytes
  unfolding touch
  hot_read idx offset_in_chunk length_to_read = do
    let db_key = object_key bucket key
    found ← catch (on_db (Metadata.get_chunk env db_key idx))
    touch idx found
    on_disk (Storage.read_chunk_range env c.storage db_key idx offset_in_chunk length_to_read)

  -- A read from upstream writes nothing to the cache.
  pub cold_read : (idx offset_in_chunk length_to_read : ℕ) → Io (World env) Bytes
  cold_read idx offset_in_chunk length_to_read = do
    let read_start = u64 (idx * c.chunk_size) + offset_in_chunk
    let read_end = read_start + length_to_read
    stream ←
        on_remote
          (env.upstream.get_object_range_stream bucket key (range_header read_start read_end))
    lift (gather stream [])

  unfoldable pub run_future : ReadFuture → Io (World env) Bytes
  unfolding hot_read cold_read is_cached
  run_future nothing = pure []
  run_future (chunk idx offset_in_chunk length_to_read) = do
    found ← catch (on_db (Metadata.get_chunk env (object_key bucket key) idx))
    if is_cached found
        then hot_read idx offset_in_chunk length_to_read
        else cold_read idx offset_in_chunk length_to_read

  -- The stream as the client reads it, one future after the other, up to the first error.
  unfoldable pub run_stream : List ReadFuture → Io (World env) (List Bytes)
  unfolding run_future
  run_stream [] = pure []
  run_stream (fut ∷ futs) = do bytes ← run_future fut; rest ← run_stream futs; pure (bytes ∷ rest)

  unfoldable pub read_range : (start end : ℕ) → Io (World env) (List ReadFuture)
  read_range start end = do
    meta ← get_object_metadata env c bucket key
    lift (read_plan c.chunk_size meta.content_length start end)
