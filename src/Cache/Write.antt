-- ===== src/Cache/Write.antt =====
-- `write_and_cache_object` of `src/cache/mod.rs`. The upload task runs beside the loop over the
-- body: when it stops taking bytes is the argument `closed` (whether the channel is closed at the
-- n-th send), and what it uploads is what was sent to it.
pub mod Fill
pub mod Cut
pub mod Register
pub mod Put
use s3xc.Prelude.{
  ℕ, zero, suc, ◌+◌, ◌%◌, ◌^◌, Bool, true, false, Option, none, some, List, [], ◌∷◌, ◌++◌, Bytes,
  Text, codes, length, take, drop, leb, if◌then◌else◌,
}
use s3xc.Io.{
  Error, error, diverges, Result, ok, err, Io, pure, raise, lift, ◌>>=◌, ◌>>◌, catch, spawn,
}
use s3xc.Str.{is_empty}
use s3xc.External.{Env, World, on_db, on_disk, on_remote}
use s3xc.Cache.Keys.{object_key}
use s3xc.Cache.Metadata
use s3xc.Cache.Metadata.Types.{ChunkMetadata, complete}
use s3xc.Cache.Storage
use s3xc.Cache.Coordinator.{CacheCoordinator, now_secs}
use s3xc.Cache.Drop.{drop_cache_for_object}

-- The variables of the method, `sent` being what the upload task was given.
pub record Upload : Type 0 where
  pub sent : List (Result Bytes)
  pub current_chunk_idx : ℕ
  pub current_chunk_buffer : Bytes
  pub chunks_written : List (ℕ × ℕ)
  pub stream_processing_result : Result (Unit {0})

abbrev pub start : Upload
start = record {
  sent = [];
  current_chunk_idx = 0;
  current_chunk_buffer = [];
  chunks_written = [];
  stream_processing_result = ok tt;
}

module _ (env : Env) (c : CacheCoordinator) (db_key : Text) where
  -- `while current_chunk_buffer.len() >= chunk_size`, on fuel: each round takes `chunk_size` bytes
  -- out of the buffer, so one round more than it has bytes is enough, unless `chunk_size` is 0 and
  -- the loop never ends.
  unfoldable pub write_full : ℕ → Upload → Io (World env) Upload
  write_full zero u = raise diverges
  write_full (suc fuel) u =
      let chunk_data = take c.chunk_size u.current_chunk_buffer in
      let drained = drop c.chunk_size u.current_chunk_buffer in
      let round : Io (World env) Upload = do
        written ←
            catch
              (on_disk (Storage.write_chunk env c.storage db_key u.current_chunk_idx chunk_data))
        elim written [
          | ok _ ↦ write_full fuel (record u {
            current_chunk_idx = u.current_chunk_idx + 1;
            current_chunk_buffer = drained;
            chunks_written = u.chunks_written ++ (u.current_chunk_idx, c.chunk_size) ∷ [];
          })
          | err e ↦
              pure (record u { current_chunk_buffer = drained; stream_processing_result = err e })
        ]
      in if leb c.chunk_size (length u.current_chunk_buffer) then round else pure u

  -- `while let Some(res) = body_stream.next().await`
  unfoldable pub process_body : (ℕ → Bool) → List (Result Bytes) → Upload → Io (World env) Upload
  process_body closed [] u = pure u
  process_body closed (err e ∷ body) u = pure (record u { stream_processing_result = err e })
  process_body closed (ok bytes ∷ body) u =
      let buffer = u.current_chunk_buffer ++ bytes in
      let round : Io (World env) Upload = do
        u' ←
            write_full (suc (length buffer))
              (record u { sent = u.sent ++ ok bytes ∷ []; current_chunk_buffer = buffer })
        elim u'.stream_processing_result [ ok _ ↦ process_body closed body u' | err e ↦ pure u' ]
      in if closed (length u.sent)
        then pure (record u {
          stream_processing_result =
              err (error (codes "Upstream upload channel closed prematurely"));
        })
        else round

  -- The rest of the buffer is the last chunk.
  unfoldable pub write_last : Upload → Io (World env) Upload
  write_last u =
      let len = length u.current_chunk_buffer in
      let last : Io (World env) Upload = do
        written ← catch (
            on_disk
              (Storage.write_chunk env c.storage db_key u.current_chunk_idx u.current_chunk_buffer))
        elim written [
          | ok _ ↦
              pure
                (record u { chunks_written = u.chunks_written ++ (u.current_chunk_idx, len) ∷ [] })
          | err e ↦ pure (record u { stream_processing_result = err e })
        ]
      in elim u.stream_processing_result [
        | ok _ ↦ if is_empty u.current_chunk_buffer then pure u else last
        | err e ↦ pure u
      ]

  -- `for (idx, size) in chunks_written`; the size is cast to `u32`.
  unfoldable pub register_chunks : List (ℕ × ℕ) → Io (World env) (Unit {0})
  register_chunks [] = pure tt
  register_chunks ((idx, size) ∷ chunks) = do
    now ← now_secs env
    on_db (
        Metadata.put_chunk env db_key idx
          (record { size = size % 2 ^ 32; last_accessed_at = now; status = complete }))
    register_chunks chunks

  -- `for idx in 0..=current_chunk_idx`, with the rounds left and the next index; errors are dropped.
  unfoldable pub clean_up : ℕ → ℕ → Io (World env) (Unit {0})
  clean_up zero idx = pure tt
  clean_up (suc rounds) idx = do
    catch (on_disk (Storage.delete_chunk env c.storage db_key idx))
    clean_up rounds (idx + 1)

module _ (env : Env) (c : CacheCoordinator) (bucket key : Text) where
  -- The match on `stream_processing_result`, with the result of the upload task.
  finish : ℕ → Option Text → Upload → Result Text → Io (World env) Text
  finish content_length content_type u uploaded =
      let db_key = object_key bucket key in
      elim u.stream_processing_result [
        | ok _ ↦ do
          etag ← lift uploaded
          register_chunks env c db_key u.chunks_written
          now ← now_secs env
          on_db (
              Metadata.put_object env db_key (record {
                content_length = content_length;
                content_type = content_type;
                etag = some etag;
                last_modified = now;
              }))
          pure etag
        | err e ↦ do clean_up env c db_key (u.current_chunk_idx + 1) 0; raise e
      ]

  unfoldable pub write_and_cache_object :
      (ℕ → Bool) → List (Result Bytes) → ℕ → Option Text → Io (World env) Text
  unfolding finish
  write_and_cache_object closed body_stream content_length content_type = do
    let db_key = object_key bucket key
    catch (drop_cache_for_object env c bucket key)
    u ← process_body env c db_key closed body_stream start
    u' ← write_last env c db_key u
    uploaded ←
        spawn (
          on_remote (env.upstream.put_object_stream bucket key u'.sent content_length content_type))
    finish content_length content_type u' uploaded
