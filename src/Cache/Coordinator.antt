-- ===== src/Cache/Coordinator.antt =====
-- `CacheCoordinator` of `src/cache/mod.rs`: its fields, the clock, and what several methods share.
use s3xc.Prelude.{ℕ, ◌+◌, ◌-◌, ◌%◌, ◌^◌, ltb, if◌then◌else◌}
use s3xc.Prelude.Int.{ℤ, as_i64}
use s3xc.Io.{Result, ok, bind_result, div, Io}
use s3xc.External.{Env, World}
use s3xc.Cache.Storage.{Storage}

-- The database and the upstream client are parts of the environment.
pub record CacheCoordinator : Type 0 where
  pub storage : Storage
  pub chunk_size : ℕ

-- A `u64` wraps around.
abbrev pub u64 : ℕ → ℕ
u64 n = n % 2 ^ 64

-- `now_secs`
unfoldable pub now_secs : (env : Env) → Io (World env) ℤ
now_secs env w = (ok (as_i64 (env.clock w.readings)), record w { readings = w.readings + 1 })

-- The number of chunks of an object of this length.
unfoldable pub num_chunks : CacheCoordinator → ℕ → Result ℕ
num_chunks c content_length =
    if ltb 0 content_length
    then bind_result (div (content_length - 1) c.chunk_size) (λ q. ok (q + 1))
    else ok 0
