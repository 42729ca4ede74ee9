-- ===== src/Tests/World.antt =====
-- The environment of the tests: the database, the disk and the store in memory.
use s3xc.Prelude.{
  ◌%◌, ◌+◌, length, if◌then◌else◌, List, ℕ, zero, suc, refl, inl, none, some, [], ◌∷◌, Bytes, Text,
  codes, All, arith,
}
use s3xc.External.{Env, World}
use s3xc.External.Works.{EnvWorks, IsHex}
use s3xc.Cache.Coordinator.{CacheCoordinator}
use s3xc.Cache.Storage.{chunk_path}
use s3xc.Cache.Keys.{object_key, chunk_key}
use s3xc.Cache.Metadata.Types.{ChunkMetadata, complete}
use s3xc.Cache.Policy.{EvictionManager}
use s3xc.External.Remote.{Stored}
use s3xc.External.Path.{path_eq}
use s3xc.Prelude.Int.{pos}
use s3xc.Tests.Tables.{redb, redb_works}
use s3xc.Tests.Disk.{fs, fs_works}
use s3xc.Tests.Codec.{
  object_json, chunk_json, object_works, chunk_works, encode_object, encode_chunk,
}
use s3xc.Tests.Store.{upstream, of_bytes}

abbrev zeros : ℕ → Text
zeros zero = []
zeros (suc n) = b'0' ∷ zeros n

pub zeros-IsHex : (n : ℕ) → All IsHex (zeros n)
zeros-IsHex zero = tt
zeros-IsHex (suc n) = (inl (omega arith, omega arith), zeros-IsHex n)

abbrev pub env : Env
env = record {
  redb = redb;
  fs = fs;
  upstream = upstream;
  object_json = object_json;
  chunk_json = chunk_json;
  sha256_hex = λ b. (b'0' + length b % 2) ∷ zeros 63;
  clock = λ n. 1000 + n;
}

unfoldable pub works : EnvWorks env
works = record {
  redb = redb_works;
  fs = fs_works;
  object_json = object_works;
  chunk_json = chunk_works;
  digest = record {
    hex = λ b. (inl (omega arith, omega arith), zeros-IsHex 63);
    length_lem = λ b. refl;
  };
}

-- Nothing is cached, and upstream there is an object of eleven bytes.
abbrev pub hello : Bytes
hello = codes "hello world"

abbrev pub empty : World env
empty = record {
  db = record { objects = []; chunks = [] };
  disk = λ p. none;
  remote = some hello;
  readings = 0;
}

-- Chunks of four bytes.
abbrev pub coordinator : CacheCoordinator
coordinator = record { storage = record { cache_dir = codes "cache" ∷ [] }; chunk_size = 4 }

abbrev pub bucket : Text
bucket = codes "b"

abbrev pub key : Text
key = codes "dir/k:1"

-- The object is known, and its first two chunks are in the database and on the disk.
abbrev pub stored : Stored
stored = of_bytes hello

abbrev pub chunk_meta : ℕ → ChunkMetadata
chunk_meta t = record { size = 4; last_accessed_at = pos t; status = complete }

abbrev pub warm : World env
warm = record {
  db = record {
    objects = (object_key bucket key, encode_object stored.meta) ∷ [];
    chunks =
        (chunk_key (object_key bucket key) 0, encode_chunk (chunk_meta 7))
        ∷ (chunk_key (object_key bucket key) 1, encode_chunk (chunk_meta 5))
        ∷ [];
  };
  disk = λ p.
      if path_eq p (chunk_path env coordinator.storage (object_key bucket key) 0)
      then some (codes "hell")
      else if path_eq p (chunk_path env coordinator.storage (object_key bucket key) 1)
      then some (codes "o wo")
      else none;
  remote = some hello;
  readings = 0;
}

-- Eviction from more than seven bytes down to three.
abbrev pub manager : EvictionManager
manager = record { storage = coordinator.storage; max_size = 7; target_size = 3 }

abbrev pub listed : List (Text × ChunkMetadata)
listed =
    (chunk_key (object_key bucket key) 0, chunk_meta 7)
    ∷ (chunk_key (object_key bucket key) 1, chunk_meta 5)
    ∷ []
