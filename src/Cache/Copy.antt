-- ===== src/Cache/Copy.antt =====
-- `copy_cache_object` of `src/cache/mod.rs`.
pub mod Round
pub mod Laws
pub mod Whole
use s3xc.Prelude.{ℕ, zero, suc, ◌+◌, Bool, true, false, Option, none, some, Text, if◌then◌else◌}
use s3xc.Io.{Io, ok, pure, lift, ◌>>=◌, ◌>>◌}
use s3xc.External.{Env, World, on_db, on_disk}
use s3xc.External.Path.{FilePath, parent}
use s3xc.Cache.Keys.{object_key}
use s3xc.Cache.Metadata
use s3xc.Cache.Metadata.Types.{ObjectMetadata, ChunkMetadata, is_complete}
use s3xc.Cache.Storage.{chunk_path}
use s3xc.Cache.Coordinator.{CacheCoordinator, num_chunks}

module _ (env : Env) (c : CacheCoordinator) (src_db_key dest_db_key : Text) where
  make_parent : Option FilePath → Io env.fs.Fs (Unit {0})
  make_parent none = pure tt
  make_parent (some parent) = env.fs.create_dir_all parent

  pub copy_file : ℕ → Io env.fs.Fs (Unit {0})
  unfolding make_parent
  copy_file idx disk =
      let src_path = chunk_path env c.storage src_db_key idx in
      let dest_path = chunk_path env c.storage dest_db_key idx in
      let copied : Io env.fs.Fs (Unit {0}) =
        make_parent (parent dest_path) >> env.fs.copy src_path dest_path in
      if env.fs.exists disk src_path then copied disk else (ok tt, disk)

  -- What is done with the source's chunk `idx`.
  pub copy_found : ℕ → Option ChunkMetadata → Io (World env) (Unit {0})
  unfolding copy_file
  copy_found idx none = pure tt
  copy_found idx (some chunk_meta) =
      let copied : Io (World env) (Unit {0}) = do
        on_disk (copy_file idx)
        on_db (Metadata.put_chunk env dest_db_key idx chunk_meta)
      in if is_complete chunk_meta.status then copied else pure tt

  -- `for idx in 0..num_chunks`, with the rounds left and the next index.
  pub copy_chunks : ℕ → ℕ → Io (World env) (Unit {0})
  unfolding copy_found
  copy_chunks zero idx = pure tt
  copy_chunks (suc rounds) idx = do
    found ← on_db (Metadata.get_chunk env src_db_key idx)
    copy_found idx found
    copy_chunks rounds (idx + 1)

  pub copy_object : Option ObjectMetadata → Io (World env) (Unit {0})
  unfolding copy_chunks
  copy_object none = pure tt
  copy_object (some src_meta) = do
    on_db (Metadata.put_object env dest_db_key src_meta)
    rounds ← lift (num_chunks c src_meta.content_length)
    copy_chunks rounds 0

unfoldable pub copy_cache_object :
    (env : Env)
    → CacheCoordinator
    → (src_bucket src_key dest_bucket dest_key : Text) → Io (World env) (Unit {0})
unfolding copy_object
copy_cache_object env c src_bucket src_key dest_bucket dest_key = do
  let src_db_key = object_key src_bucket src_key
  let dest_db_key = object_key dest_bucket dest_key
  found ← on_db (Metadata.get_object env src_db_key)
  copy_object env c src_db_key dest_db_key found
