-- ===== src/Server/Handlers/Status.antt =====
-- The value of `X-S3XC-CACHED`.
use s3xc.Prelude.{
  ◌≡◌, refl, inl, inr, Bool, true, some, Text, codes, Bool-cases, ◌==◌, if◌then◌else◌,
}
use s3xc.Io.{ok}
use s3xc.External.{Env, World}
use s3xc.External.Works.{EnvWorks}
use s3xc.Cache.Keys.{object_key, chunk_key}
use s3xc.Cache.Metadata.Types.{ObjectMetadata}
use s3xc.Cache.Metadata.Laws.{objects, get_object-objects, get_chunk-chunks, chunks_returns}
use s3xc.Server.Handlers.{is_hot_chunk, hot_object, cache_status}

module _ (env : Env) (works : EnvWorks env) (bucket key : Text) where
  -- For a known object the status is found, and nothing changes.
  pub cache_status_lem :
      (w : World env) (m : ObjectMetadata)
      → objects env works w.db (object_key bucket key) ≡ ok (some m)
      → (is_hot : Bool) × (cache_status env bucket key w
          ≡ (ok (if is_hot then codes "hot" else codes "cold"), w))
  unfolding cache_status hot_object
  cache_status_lem w m known =
      let (r, returns) = chunks_returns env works w.db (chunk_key (object_key bucket key) 0) in
      elim (Bool-cases (m.content_length == 0)) [
        | inl nothing ↦
            (true, rw (get_object-objects env works (object_key bucket key), known, nothing) refl)
        | inr something ↦ (
          is_hot_chunk r,
          rw
              (
                get_object-objects env works (object_key bucket key),
                known,
                something,
                get_chunk-chunks env works (object_key bucket key) 0,
                returns,
              )
              refl,
        )
      ]
