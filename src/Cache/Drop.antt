-- ===== src/Cache/Drop.antt =====
-- `drop_cache_for_object` and `get_object_metadata` of `src/cache/mod.rs`.
pub mod Loop
pub mod Laws
use s3xc.Prelude.{
  ℕ, zero, suc, ◌+◌, Bool, true, false, not, ◌||◌, Option, none, some, Text, text_eq, ◌==◌,
  if◌then◌else◌,
}
use s3xc.Io.{Io, pure, lift, ◌>>=◌, ◌>>◌, catch}
use s3xc.External.{Env, World, on_db, on_disk, on_remote}
use s3xc.Cache.Keys.{object_key}
use s3xc.Cache.Metadata
use s3xc.Cache.Metadata.Types.{ObjectMetadata}
use s3xc.Cache.Storage
use s3xc.Cache.Coordinator.{CacheCoordinator, num_chunks}

-- `a == b` on optional texts
pub option_eq : Option Text → Option Text → Bool
option_eq none none = true
option_eq (some s) (some t) = text_eq s t
option_eq none (some t) = false
option_eq (some s) none = false

-- Whether the upstream object is another than the one that the cache knows.
unfoldable pub is_stale : ObjectMetadata → ObjectMetadata → Bool
unfolding option_eq
is_stale local upstream =
    not (option_eq local.etag upstream.etag)
    || not (local.content_length == upstream.content_length)

module _ (env : Env) (c : CacheCoordinator) where
  -- `for idx in 0..num_chunks`, with the rounds left and the next index; errors are dropped.
  pub drop_chunks : Text → ℕ → ℕ → Io (World env) (Unit {0})
  drop_chunks db_key zero idx = pure tt
  drop_chunks db_key (suc rounds) idx = do
    catch (on_disk (Storage.delete_chunk env c.storage db_key idx))
    catch (on_db (Metadata.delete_chunk env db_key idx))
    drop_chunks db_key rounds (idx + 1)

  pub drop_found : Text → Option ObjectMetadata → Io (World env) (Unit {0})
  unfolding drop_chunks
  drop_found db_key none = pure tt
  drop_found db_key (some meta) = do
    rounds ← lift (num_chunks c meta.content_length)
    drop_chunks db_key rounds 0

  unfoldable pub drop_cache_for_object : Text → Text → Io (World env) (Unit {0})
  unfolding drop_found
  drop_cache_for_object bucket key = do
    let db_key = object_key bucket key
    found ← on_db (Metadata.get_object env db_key)
    drop_found db_key found
    on_db (Metadata.delete_object env db_key)

  pub drop_stale : Text → Text → ObjectMetadata → Option ObjectMetadata → Io (World env) (Unit {0})
  unfolding drop_cache_for_object is_stale
  drop_stale bucket key upstream none = pure tt
  drop_stale bucket key upstream (some local) =
      if is_stale local upstream then drop_cache_for_object bucket key else pure tt

  unfoldable pub get_object_metadata : Text → Text → Io (World env) ObjectMetadata
  unfolding drop_stale
  get_object_metadata bucket key = do
    let db_key = object_key bucket key
    upstream ← on_remote (env.upstream.head_object bucket key)
    local ← on_db (Metadata.get_object env db_key)
    drop_stale bucket key upstream local
    let meta : ObjectMetadata = record {
      content_length = upstream.content_length;
      content_type = upstream.content_type;
      etag = upstream.etag;
      last_modified = upstream.last_modified;
    }
    on_db (Metadata.put_object env db_key meta)
    pure meta
