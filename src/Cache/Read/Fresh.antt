-- ===== src/Cache/Read/Fresh.antt =====
-- `get_object_metadata` leaves a coherent cache.
use s3xc.Prelude.{
  ℕ, ◌*◌, ◌<◌, ◌≡◌, ◌≢◌, refl, sym, ◌∙◌, true, inl, inr, none, some, Text, text_eq_refl, arith,
  Bool-cases,
}
use s3xc.Io.{Result, ok, pure, ◌>>◌}
use s3xc.External.{Env, World, on_db}
use s3xc.External.Works.{EnvWorks}
use s3xc.External.Remote.{Stored, UpstreamReads}
use s3xc.Cache.Keys.{object_key, chunk_key}
use s3xc.Cache.Metadata
use s3xc.Cache.Metadata.Types.{ObjectMetadata, ChunkMetadata, is_complete}
use s3xc.Cache.Metadata.Laws.{objects, chunks, get_object-objects, put_object-ObjectAt}
use s3xc.Cache.Storage.Laws.{chunk_file}
use s3xc.Cache.Chunks.{chunk_bytes}
use s3xc.Cache.Coordinator.{CacheCoordinator}
use s3xc.Cache.Drop.{is_stale, drop_stale, drop_cache_for_object, get_object_metadata}
use s3xc.Cache.Drop.Laws.{is_stale_etag, is_stale_length, drop_cache-Drops}
use s3xc.Cache.Read.Serve.{IsCoherent}

module _ (env : Env) (works : EnvWorks env) (up : UpstreamReads env.upstream) (c : CacheCoordinator)
    (bucket key : Text) (s : Stored) where
  -- What the cache may know of the object before a request: nothing, not even a chunk; or a version
  -- of it, with chunks inside its length, which are right if the version is the upstream one.
  pub data Knows (w : World env) : Type 0 where
    cold :
        objects env works w.db (object_key bucket key) ≡ ok none
        → ((i : ℕ) (m : ChunkMetadata)
            → chunks env works w.db (chunk_key (object_key bucket key) i) ≢ ok (some m))
        → Knows w
    known :
        (local : ObjectMetadata)
        → objects env works w.db (object_key bucket key) ≡ ok (some local)
        → ((i : ℕ) (m : ChunkMetadata)
            → chunks env works w.db (chunk_key (object_key bucket key) i) ≡ ok (some m)
            → i * c.chunk_size < local.content_length)
        → (local.etag ≡ s.meta.etag
            → local.content_length ≡ s.meta.content_length
            → (i : ℕ) (m : ChunkMetadata)
            → chunks env works w.db (chunk_key (object_key bucket key) i) ≡ ok (some m)
            → is_complete m.status ≡ true
            → chunk_file env works c.storage w.disk (object_key bucket key) i
              ≡ some (chunk_bytes c.chunk_size i s.bytes))
        → Knows w

  -- Every chunk of the key lies inside the length of the upstream object.
  abbrev pub IsWithin : World env → Type 0
  IsWithin w =
      (i : ℕ) (m : ChunkMetadata)
      → chunks env works w.db (chunk_key (object_key bucket key) i) ≡ ok (some m)
      → i * c.chunk_size < s.meta.content_length

  -- The request for the metadata, and the world that it leaves.
  pub record IsFresh (r : Result ObjectMetadata × World env) : Type 0 where
    pub returns : r.0 ≡ ok s.meta
    pub coherent : IsCoherent env works up c bucket key s r.1
    pub recorded : objects env works r.1.db (object_key bucket key) ≡ ok (some s.meta)
    pub within : IsWithin r.1

  -- The world when HEAD has answered.
  after_head : World env → World env
  after_head w = record w { remote = (env.upstream.head_object bucket key w.remote).1 }

  -- The step that drops what is stale returns, and leaves a coherent cache.
  record IsReady (r : Result (Unit {0}) × World env) : Type 0 where
    returns : r.0 ≡ ok tt
    coherent : IsCoherent env works up c bucket key s r.1
    within : IsWithin r.1

  drop_stale-IsReady :
      (local : ObjectMetadata) (w : World env)
      → 0 < c.chunk_size
      → up.stored w.remote bucket key ≡ some s
      → Knows w
      → objects env works w.db (object_key bucket key) ≡ ok (some local)
      → IsReady (drop_stale env c bucket key s.meta (some local) w)
  unfolding get_object_metadata
  drop_stale-IsReady local w pos there (cold e bare) e' = cc
  drop_stale-IsReady local w pos there (known l e within right) e' =
      let dk = object_key bucket key in
      let same : l ≡ local = cc in
      elim (Bool-cases (is_stale local s.meta)) [
        | inl stale ↦
            let dropped = drop_cache-Drops env works c bucket key local w pos e' in
            let none_left : (i : ℕ) (m : ChunkMetadata)
                → chunks env works (drop_cache_for_object env c bucket key w).1.db (chunk_key dk i)
                  ≢ ok (some m) =
              λ i m found. ground (
                arith,
                found,
                dropped.chunks_lem (chunk_key dk i),
                dropped.gone i,
                within i m,
                same,
              ) in
            rw stale (record {
              returns = dropped.returns;
              coherent = record {
                chunk_lem = λ i m found complete. absurd (none_left i m found);
                stored_lem = rw dropped.remote_lem there;
              };
              within = λ i m found. absurd (none_left i m found);
            })
        | inr current ↦ rw current (record {
          returns = refl;
          coherent = record {
            chunk_lem =
                right (rw same (is_stale_etag local s.meta current))
                  (rw same (is_stale_length local s.meta current));
            stored_lem = there;
          };
          within =
              let size = is_stale_length local s.meta current in
              λ i m found. rw (sym size, sym same) (within i m found);
        })
      ]

  -- What HEAD leaves is what the cache knew.
  after_head-Knows : (w : World env) → Knows w → Knows (after_head w)
  unfolding after_head
  after_head-Knows w (cold e bare) = cold e bare
  after_head-Knows w (known l e within right) = known l e within right

  IsReady-none :
      (w : World env)
      → up.stored w.remote bucket key ≡ some s
      → Knows w
      → objects env works w.db (object_key bucket key) ≡ ok none
      → IsReady (drop_stale env c bucket key s.meta none w)
  unfolding get_object_metadata
  IsReady-none w there (cold e bare) e' = record {
    returns = refl;
    coherent = record { chunk_lem = λ i m found. absurd (bare i m found); stored_lem = there };
    within = λ i m found. absurd (bare i m found);
  }
  IsReady-none w there (known l e within right) e' = cc

  -- The last step writes the metadata to the database, and the chunks stay as they are.
  recorded-IsFresh :
      (r : Result (Unit {0}) × World env)
      → IsReady r
      → IsFresh (
          (λ (w : World env).
              (on_db (Metadata.put_object env (object_key bucket key) s.meta) >> pure s.meta) w)
            r.1)
  recorded-IsFresh r ready =
      let dk = object_key bucket key in
      let put = put_object-ObjectAt env works dk s.meta r.1.db in
      rw put.returns (record {
        returns = refl;
        coherent = record {
          chunk_lem = λ i m found.
              ready.coherent.chunk_lem i m (sym (put.chunks_lem (chunk_key dk i)) ∙ found);
          stored_lem = ready.coherent.stored_lem;
        };
        recorded = ground (arith, put.objects_lem dk, text_eq_refl dk);
        within = λ i m found. ready.within i m (sym (put.chunks_lem (chunk_key dk i)) ∙ found);
      })

  -- For a positive chunk size, an object that is upstream, and a cache that knows nothing of it
  -- or a version of it with chunks inside the recorded length (right ones, if the tag and the
  -- length are still the upstream ones): the request returns the upstream metadata, records it,
  -- and leaves every complete chunk with the bytes of the upstream object.
  pub get_object_metadata-IsFresh :
      (w : World env)
      → 0 < c.chunk_size
      → up.stored w.remote bucket key ≡ some s
      → Knows w
      → IsFresh (get_object_metadata env c bucket key w)
  unfolding get_object_metadata after_head
  get_object_metadata-IsFresh w pos there (cold e bare) =
      let ready =
        IsReady-none (after_head w) (rw (up.head_keeps w.remote bucket key) there)
          (after_head-Knows w (cold e bare)) e in
      rw
        (
          up.head_lem w.remote bucket key s there,
          get_object-objects env works (object_key bucket key),
          e,
        )
        (recorded-IsFresh _ ready)
  get_object_metadata-IsFresh w pos there (known l e within right) =
      let ready =
        drop_stale-IsReady l (after_head w) pos (rw (up.head_keeps w.remote bucket key) there)
          (after_head-Knows w (known l e within right)) e in
      rw
        (
          up.head_lem w.remote bucket key s there,
          get_object-objects env works (object_key bucket key),
          e,
          ready.returns,
        )
        (recorded-IsFresh _ ready)
