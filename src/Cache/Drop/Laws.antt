-- ===== src/Cache/Drop/Laws.antt =====
-- What dropping an object's cache does to the world, for the object and for all others.
use s3xc.Prelude.{
  Option, true, text_eq_iff, ℕ, zero, suc, ◌+◌, ◌*◌, ◌/◌, ◌<◌, ◌≡◌, refl, ap, ◌∙◌, false, ◌⊎◌, none,
  some, Text, text_eq, arith, if◌then◌else◌,
}
use s3xc.Io.{Result, ok, div}
use s3xc.External.{Env, World}
use s3xc.External.Works.{EnvWorks}
use s3xc.Cache.Keys.{object_key, chunk_key}
use s3xc.Cache.Metadata.Types.{ObjectMetadata}
use s3xc.Cache.Metadata
use s3xc.Cache.Metadata.Laws.{objects, chunks, get_object-objects, delete_object-ObjectAt}
use s3xc.Cache.Storage.Laws.{chunk_file, same_file}
use s3xc.Cache.Coordinator.{CacheCoordinator, num_chunks}
use s3xc.Cache.Drop.{option_eq, is_stale, drop_chunks, drop_found, drop_cache_for_object}
use s3xc.Cache.Drop.Loop.{drop_chunks-DropsFrom}

option_eq-eq : (a b : Option Text) → option_eq a b ≡ true → a ≡ b
unfolding option_eq
option_eq-eq none none h = refl
option_eq-eq none (some t) h = cc
option_eq-eq (some s) none h = cc
option_eq-eq (some s) (some t) h = ap some ((text_eq_iff s t).0 h)

-- What is not stale has the tag and the length of the upstream object.
pub is_stale_etag :
    (local upstream : ObjectMetadata) → is_stale local upstream ≡ false → local.etag ≡ upstream.etag
unfolding is_stale
is_stale_etag local upstream h = option_eq-eq _ _ (ground arith)

pub is_stale_length :
    (local upstream : ObjectMetadata)
    → is_stale local upstream ≡ false
    → local.content_length ≡ upstream.content_length
unfolding is_stale
is_stale_length local upstream h = ground arith

module _ (env : Env) (works : EnvWorks env) (c : CacheCoordinator) where
  -- After a drop of the cache of one object: the object and every chunk that its length counts are
  -- gone from the database, the files of those chunks from the disk, and all else is as `Shrinks` says.
  pub record Drops (dk : Text) (content_length : ℕ) (w : World env)
      (r : Result (Unit {0}) × World env) : Type 0 where
    pub returns : r.0 ≡ ok tt
    pub chunks_lem :
        (j : Text)
        → (chunks env works r.1.db j ≡ chunks env works w.db j)
          ⊎ (chunks env works r.1.db j ≡ ok none)
    pub gone :
        (i : ℕ)
        → i * c.chunk_size < content_length
        → chunks env works r.1.db (chunk_key dk i) ≡ ok none
    pub no_file :
        (i : ℕ)
        → i * c.chunk_size < content_length
        → chunk_file env works c.storage r.1.disk dk i ≡ none
    pub objects_lem :
        (j : Text)
        → objects env works r.1.db j ≡ (if text_eq dk j then ok none else objects env works w.db j)
    pub others_lem :
        (j : Text)
        → ((n : ℕ) → text_eq (chunk_key dk n) j ≡ false)
        → chunks env works r.1.db j ≡ chunks env works w.db j
    pub files_lem :
        (j : Text) (i : ℕ)
        → ((n : ℕ) → same_file env works c.storage dk n j i ≡ false)
        → chunk_file env works c.storage r.1.disk j i ≡ chunk_file env works c.storage w.disk j i
    pub remote_lem : r.1.remote ≡ w.remote

  -- Every chunk whose first byte lies in an object is counted by its length.
  pub num_chunks_lem :
      (n : ℕ)
      → 0 < c.chunk_size
      → (q : ℕ) × (num_chunks c n ≡ ok q) × ((i : ℕ) → i * c.chunk_size < n → i < q)
  unfolding num_chunks div
  num_chunks_lem zero pos = (0, ground arith, λ i h. omega arith)
  num_chunks_lem (suc n) pos = (n / c.chunk_size + 1, ground arith, λ i h. grind arith)

  -- For a positive chunk size, the drop of an object that the database knows returns; the object
  -- and every chunk that its recorded length counts are gone from the database, the files of those
  -- chunks are gone from the disk, no chunk has appeared, and other objects, their chunks and files, and the upstream store are as before.
  pub drop_cache-Drops :
      (bucket key : Text) (m : ObjectMetadata) (w : World env)
      → 0 < c.chunk_size
      → objects env works w.db (object_key bucket key) ≡ ok (some m)
      → Drops (object_key bucket key) m.content_length w (drop_cache_for_object env c bucket key w)
  unfolding drop_cache_for_object drop_found
  drop_cache-Drops bucket key m w pos known =
      let dk = object_key bucket key in
      let (rounds, e, within) = num_chunks_lem m.content_length pos in
      let loop = drop_chunks-DropsFrom env works c dk rounds 0 w in
      let w' = (drop_chunks env c dk rounds 0 w).1 in
      let deleted = delete_object-ObjectAt env works dk w'.db in
      rw (get_object-objects env works dk, known, e, loop.returns)
        (record {
          returns = deleted.returns;
          chunks_lem = λ j. ground (arith, deleted.chunks_lem j, loop.shrinks.chunks_lem j);
          gone = λ i h.
              deleted.chunks_lem (chunk_key dk i)
              ∙ loop.gone i (omega arith) (omega (arith, within i h));
          no_file = λ i h. loop.no_file i (omega arith) (omega (arith, within i h));
          objects_lem = λ j. ground (arith, deleted.objects_lem j, loop.shrinks.objects_lem j);
          others_lem = λ j h. deleted.chunks_lem j ∙ loop.shrinks.others_lem j h;
          files_lem = λ j i h. loop.shrinks.files_lem j i h;
          remote_lem = loop.shrinks.remote_lem;
        })

  -- Of an object that is not known nothing is dropped.
  pub drop_cache_none :
      (bucket key : Text) (w : World env)
      → objects env works w.db (object_key bucket key) ≡ ok none
      → drop_cache_for_object env c bucket key w
        ≡ (ok tt, record w { db = (Metadata.delete_object env (object_key bucket key) w.db).1 })
  unfolding drop_cache_for_object drop_found
  drop_cache_none bucket key w unknown =
      let dk = object_key bucket key in
      let deleted = delete_object-ObjectAt env works dk w.db in
      rw (get_object-objects env works dk, unknown, deleted.returns) refl
