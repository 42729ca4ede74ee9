-- ===== src/Cache/Read/Slice.antt =====
-- What a client reads with `read_range`: the bytes of the upstream object as it is now.
use s3xc.Prelude.{
  ℕ, ◌+◌, ◌-◌, ◌^◌, ◌≤◌, ◌<◌, ◌≡◌, refl, ap, ◌∙◌, false, inl, inr, some, List, [], ◌∷◌, Bytes, Text,
  length, concat, map, slice, min, arith, take, drop, Bool-cases, leb, leb→le,
}
use s3xc.Io.{ok, Io, ◌>>=◌}
use s3xc.External.{Env, World}
use s3xc.External.Works.{EnvWorks}
use s3xc.External.Remote.{Stored, UpstreamReads}
use s3xc.Cache.Coordinator.{CacheCoordinator}
use s3xc.Cache.Drop.{get_object_metadata}
use s3xc.Cache.Read.{ReadFuture, nothing, read_plan, read_range, run_stream}
use s3xc.Cache.Read.Plan.{part_bytes, read_plan-covers, read_plan_empty}
use s3xc.Cache.Read.Serve.{IsCoherent, run_stream-Serves}
use s3xc.Cache.Read.Fresh.{Knows, IsFresh, get_object_metadata-IsFresh}

module _ (env : Env) (works : EnvWorks env) (up : UpstreamReads env.upstream) (c : CacheCoordinator)
    (bucket key : Text) (s : Stored) where
  run_stream_nothing :
      (w : World env) → run_stream env c bucket key (nothing ∷ []) w ≡ (ok ([] ∷ []), w)
  unfolding run_stream
  run_stream_nothing w = refl

  -- A range read as the client sees it: the plan, and then the stream.
  unfoldable pub read_bytes : (start end : ℕ) → Io (World env) (List Bytes)
  read_bytes start end = do
    futs ← read_range env c bucket key start end
    run_stream env c bucket key futs

  read_bytes-run_stream :
      (w : World env) (start end : ℕ) (futs : List ReadFuture)
      → IsFresh env works up c bucket key s (get_object_metadata env c bucket key w)
      → s.meta.content_length ≡ length s.bytes
      → read_plan c.chunk_size (length s.bytes) start end ≡ ok futs
      → read_bytes start end w
        ≡ run_stream env c bucket key futs (get_object_metadata env c bucket key w).1
  unfolding read_bytes read_range
  read_bytes-run_stream w start end futs fresh size plan =
      let plan' : read_plan c.chunk_size s.meta.content_length start end ≡ ok futs =
        ap (λ n. read_plan c.chunk_size n start end) size ∙ plan in
      rw (fresh.returns, plan')

  -- For a positive chunk size, an object upstream whose length and a chunk fit in 64 bits, and a
  -- cache that knows nothing of it or a version of it with chunks inside the recorded length
  -- (right ones, if the tag and the length are still the upstream ones): whatever is cached, the
  -- client reads exactly the bytes of the upstream object from `start` up to `end` or the
  -- object's end, without an error, and the cache is coherent then.
  pub read_bytes-slice :
      (w : World env) (start end : ℕ)
      → 0 < c.chunk_size
      → length s.bytes + c.chunk_size ≤ 2 ^ 64
      → up.stored w.remote bucket key ≡ some s
      → Knows env works up c bucket key s w
      → (pieces : List Bytes) × ((read_bytes start end w).0 ≡ ok pieces)
        × (concat pieces ≡ slice start (min end (length s.bytes)) s.bytes)
        × IsCoherent env works up c bucket key s (read_bytes start end w).1
  read_bytes-slice w start end pos small there knows =
      let fresh = get_object_metadata-IsFresh env works up c bucket key s w pos there knows in
      let size = up.length_lem w.remote bucket key s there in
      elim (Bool-cases (leb (min end (length s.bytes)) start)) [
        | inl none_asked ↦
            let le : min end (length s.bytes) ≤ start = leb→le _ _ none_asked in
            let run =
              read_bytes-run_stream w start end (nothing ∷ []) fresh size
                (read_plan_empty c.chunk_size (length s.bytes) start end le) in
            (
              [] ∷ [],
              rw (run, run_stream_nothing),
              ap (λ n. take n (drop start s.bytes)) {x = 0} {y = min end (length s.bytes) - start}
                  (omega arith),
              rw (run, run_stream_nothing) fresh.coherent,
            )
        | inr some_asked ↦
            let (parts, plan, fits, whole) =
              read_plan-covers c.chunk_size s.bytes start end pos small
                (not_le start end some_asked) in
            let run = read_bytes-run_stream w start end parts fresh size plan in
            let (served, coherent) =
              run_stream-Serves env works up c bucket key s parts _ small fits fresh.coherent in
            (map (part_bytes c.chunk_size s.bytes) parts, rw run served, whole, rw run coherent)
      ]
    where
      not_le : (a b : ℕ) → leb (min b (length s.bytes)) a ≡ false → a < min b (length s.bytes)
      not_le a b h = ground arith
