-- ===== src/Cache/Read/Serve.antt =====
-- What the client reads: over a coherent cache, the bytes of the upstream object, whichever of its
-- chunks are cached.
use s3xc.Prelude.{
  ℕ, ◌+◌, ◌*◌, ◌^◌, ◌≤◌, ◌≡◌, refl, sym, ap, ◌∙◌, true, inl, inr, Option, none, some, List, [], ◌∷◌,
  ◌++◌, Bytes, Text, text_eq, text_eq_iff, length, concat, map, All, append-nil, append_assoc,
  arith, Bool-cases, if◌then◌else◌,
}
use s3xc.Io.{Result, ok, err, attempt, attempt_ok}
use s3xc.Prelude.Int.{as_i64}
use s3xc.External.{Env, World}
use s3xc.External.Works.{EnvWorks}
use s3xc.External.Remote.{Stored, UpstreamReads}
use s3xc.Cache.Keys.{object_key, chunk_key}
use s3xc.Cache.Metadata.Types.{ChunkMetadata, is_complete}
use s3xc.Cache.Metadata.Laws.{chunks, get_chunk-chunks, ChunkAt, put_chunk-ChunkAt, chunks_returns}
use s3xc.Cache.Storage.Laws.{chunk_file, read_chunk_range_lem}
use s3xc.Cache.Chunks.{chunk_bytes, part-slice, length-chunk_bytes}
use s3xc.Cache.Coordinator.{CacheCoordinator, u64, now_secs}
use s3xc.Cache.Read.{
  ReadFuture, nothing, chunk, gather, is_cached, touch, hot_read, cold_read, run_future, run_stream,
}
use s3xc.Cache.Read.Plan.{Fits, part_bytes}

pub gather-map :
    (pieces : List Bytes) (buffer : Bytes)
    → gather (map ok pieces) buffer ≡ ok (buffer ++ concat pieces)
unfolding gather
gather-map [] buffer = rw append-nil
gather-map (p ∷ pieces) buffer = simp (gather-map pieces, append_assoc)

module _ (env : Env) (works : EnvWorks env) (up : UpstreamReads env.upstream) (c : CacheCoordinator)
    (bucket key : Text) (s : Stored) where
  -- Every chunk that the database calls complete is on disk, with the bytes of the object.
  pub record IsCoherent (w : World env) : Type 0 where
    pub chunk_lem :
        (i : ℕ) (m : ChunkMetadata)
        → chunks env works w.db (chunk_key (object_key bucket key) i) ≡ ok (some m)
        → is_complete m.status ≡ true
        → chunk_file env works c.storage w.disk (object_key bucket key) i
          ≡ some (chunk_bytes c.chunk_size i s.bytes)
    pub stored_lem : up.stored w.remote bucket key ≡ some s

  -- A read of bytes, and the world that it leaves.
  pub record Serves (bytes : Bytes) (r : Result Bytes × World env) : Type 0 where
    pub returns : r.0 ≡ ok bytes
    pub coherent : IsCoherent r.1

  cold_read-Serves :
      (idx off len : ℕ) (w : World env)
      → length s.bytes + c.chunk_size ≤ 2 ^ 64
      → Fits c.chunk_size (length s.bytes) (chunk idx off len)
      → IsCoherent w
      → Serves
          (part_bytes c.chunk_size s.bytes (chunk idx off len))
          (cold_read env c bucket key idx off len w)
  unfolding cold_read
  cold_read-Serves idx off len w small fits coh =
      let cs = c.chunk_size in
      let first = idx * cs + off in
      let low : u64 (idx * cs) ≡ idx * cs = omega arith in
      let (pieces, got, whole) =
        up.range_lem w.remote bucket key s first (first + len) coh.stored_lem (omega arith)
          (omega arith) in
      let bytes : concat pieces ≡ part_bytes cs s.bytes (chunk idx off len) =
        whole ∙ sym (part-slice cs idx off len s.bytes (omega arith)) in
      rw low (record {
        returns = rw (got, gather-map pieces []) (ap ok bytes);
        coherent = rw got (record {
          chunk_lem = coh.chunk_lem;
          stored_lem = rw (up.range_keeps w.remote bucket key) coh.stored_lem;
        });
      })

  -- A chunk that is touched is no other chunk, so the files of all chunks are still right.
  touch-chunk_file :
      (w : World env) (idx i : ℕ) (m m' n : ChunkMetadata) (r : Result (Unit {0}) × env.redb.Db)
      → ChunkAt env works (chunk_key (object_key bucket key) idx) (some m') w.db r
      → IsCoherent w
      → chunks env works w.db (chunk_key (object_key bucket key) idx) ≡ ok (some m)
      → is_complete m.status ≡ true
      → chunks env works r.1 (chunk_key (object_key bucket key) i) ≡ ok (some n)
      → is_complete n.status ≡ true
      → chunk_file env works c.storage w.disk (object_key bucket key) i
        ≡ some (chunk_bytes c.chunk_size i s.bytes)
  touch-chunk_file w idx i m m' n r put coh e done e' done' =
      let k = chunk_key (object_key bucket key) idx in
      let j = chunk_key (object_key bucket key) i in
      elim (Bool-cases (text_eq k j)) [
        | inl same ↦
            coh.chunk_lem i m (ap (chunks env works w.db) (sym ((text_eq_iff k j).0 same)) ∙ e) done
        | inr other ↦ coh.chunk_lem i n (ground (arith, put.chunks_lem j, e', other)) done'
      ]

  hot_read-Serves :
      (idx off len : ℕ) (w : World env) (m : ChunkMetadata)
      → Fits c.chunk_size (length s.bytes) (chunk idx off len)
      → IsCoherent w
      → chunks env works w.db (chunk_key (object_key bucket key) idx) ≡ ok (some m)
      → is_complete m.status ≡ true
      → Serves
          (part_bytes c.chunk_size s.bytes (chunk idx off len))
          (hot_read env c bucket key idx off len w)
  unfolding hot_read touch now_secs
  hot_read-Serves idx off len w m fits coh e done =
      let dk = object_key bucket key in
      let cs = c.chunk_size in
      let found : attempt (chunks env works w.db (chunk_key dk idx)) ≡ ok (ok (some m)) = rw e in
      let m' : ChunkMetadata = record m { last_accessed_at = as_i64 (env.clock w.readings) } in
      let put = put_chunk-ChunkAt env works dk idx m' w.db in
      let read =
        read_chunk_range_lem env works c.storage dk idx off len (chunk_bytes cs idx s.bytes) w.disk
          (coh.chunk_lem idx m e done)
          (length-chunk_bytes cs idx (off + len) s.bytes (omega arith) (omega arith)) in
      rw (get_chunk-chunks env works dk idx, found, put.returns, read)
        (record {
          returns = refl;
          coherent = record {
            chunk_lem = λ i n. touch-chunk_file w idx i m m' n _ put coh e done;
            stored_lem = coh.stored_lem;
          };
        })

  -- The branch that `run_future` takes on what it finds in the database.
  branch-Serves :
      (idx off len : ℕ) (w : World env) (r : Result (Option ChunkMetadata))
      → length s.bytes + c.chunk_size ≤ 2 ^ 64
      → Fits c.chunk_size (length s.bytes) (chunk idx off len)
      → IsCoherent w
      → attempt (chunks env works w.db (chunk_key (object_key bucket key) idx)) ≡ ok r
      → Serves (part_bytes c.chunk_size s.bytes (chunk idx off len)) (
          (if is_cached r
              then hot_read env c bucket key idx off len
              else cold_read env c bucket key idx off len)
            w)
  unfolding is_cached
  branch-Serves idx off len w (ok (some m)) small fits coh e =
      elim (Bool-cases (is_complete m.status)) [
        | inl done ↦ rw done (hot_read-Serves idx off len w m fits coh (attempt_ok _ _ e) done)
        | inr other ↦ rw other (cold_read-Serves idx off len w small fits coh)
      ]
  branch-Serves idx off len w (ok none) small fits coh e =
      cold_read-Serves idx off len w small fits coh
  branch-Serves idx off len w (err x) small fits coh e =
      cold_read-Serves idx off len w small fits coh

  run_future-Serves :
      (fut : ReadFuture) (w : World env)
      → length s.bytes + c.chunk_size ≤ 2 ^ 64
      → Fits c.chunk_size (length s.bytes) fut
      → IsCoherent w
      → Serves (part_bytes c.chunk_size s.bytes fut) (run_future env c bucket key fut w)
  unfolding run_future
  run_future-Serves nothing w small fits coh = absurd fits
  run_future-Serves (chunk idx off len) w small fits coh =
      let (r, e) = chunks_returns env works w.db (chunk_key (object_key bucket key) idx) in
      rw (get_chunk-chunks env works (object_key bucket key) idx, e)
        (branch-Serves idx off len w r small fits coh e)

  -- For an object upstream whose length and a chunk fit in 64 bits, over a coherent cache, the
  -- futures that lie inside the object give, one after the other, their parts of its bytes, from
  -- the disk or from upstream, and leave the cache coherent.
  pub run_stream-Serves :
      (futs : List ReadFuture) (w : World env)
      → length s.bytes + c.chunk_size ≤ 2 ^ 64
      → All (Fits c.chunk_size (length s.bytes)) futs
      → IsCoherent w
      → ((run_stream env c bucket key futs w).0 ≡ ok (map (part_bytes c.chunk_size s.bytes) futs))
        × IsCoherent (run_stream env c bucket key futs w).1
  unfolding run_stream
  run_stream-Serves [] w small fits coh = (refl, coh)
  run_stream-Serves (fut ∷ futs) w small fits coh =
      let first = run_future-Serves fut w small fits.0 coh in
      let (rest, coh') =
        run_stream-Serves futs (run_future env c bucket key fut w).1 small fits.1 first.coherent in
      (rw (first.returns, rest), rw (first.returns, rest) coh')
