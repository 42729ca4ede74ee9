-- ===== src/Cache/Write/Put.antt =====
-- What `write_and_cache_object` leaves when the body and the upload succeed, and what a client
-- reads then.
use s3xc.Prelude.{
  ◌↔◌, ℕ, ◌+◌, ◌*◌, ◌^◌, ◌≤◌, ◌<◌, ◌≡◌, ◌≢◌, refl, sym, ap, ◌∙◌, Bool, true, false, inl, inr,
  Option, none, some, List, Bytes, Text, text_eq_refl, length, concat, map, slice, min, arith, ltb,
  ltb→lt, Bool-cases,
}
use s3xc.Prelude.Int.{ℤ, as_i64}
use s3xc.Io.{Result, ok}
use s3xc.External.{Env, World}
use s3xc.External.Works.{EnvWorks}
use s3xc.External.Remote.{Stored, UpstreamReads}
use s3xc.Cache.Keys.{object_key, chunk_key}
use s3xc.Cache.Metadata.Types.{ObjectMetadata, ChunkMetadata, is_complete}
use s3xc.Cache.Metadata.Laws.{objects, chunks, put_object-ObjectAt, delete_object-ObjectAt}
use s3xc.Cache.Storage.Laws.{chunk_file}
use s3xc.Cache.Chunks.{chunk_bytes}
use s3xc.Cache.Coordinator.{CacheCoordinator, now_secs}
use s3xc.Cache.Drop.{drop_cache_for_object}
use s3xc.Cache.Drop.Laws.{drop_cache-Drops, drop_cache_none}
use s3xc.Cache.Read.Fresh.{known}
use s3xc.Cache.Read.Slice.{read_bytes, read_bytes-slice}
use s3xc.Cache.Write.{Upload, start, finish, write_and_cache_object}
use s3xc.Cache.Write.Fill.{chunk_sizes}
use s3xc.Cache.Write.Cut.{body-IsCut}
use s3xc.Cache.Write.Register.{other_key, register_chunks-Registered}

module _ (env : Env) (works : EnvWorks env) (c : CacheCoordinator) (bucket key : Text) where
  -- What the database may hold of the object: nothing; or its metadata, and chunks inside the length
  -- that it records.
  pub data Tracked (w : World env) : Type 0 where
    unknown :
        objects env works w.db (object_key bucket key) ≡ ok none
        → ((i : ℕ) (m : ChunkMetadata)
            → chunks env works w.db (chunk_key (object_key bucket key) i) ≢ ok (some m))
        → Tracked w
    tracked :
        (local : ObjectMetadata)
        → objects env works w.db (object_key bucket key) ≡ ok (some local)
        → ((i : ℕ) (m : ChunkMetadata)
            → chunks env works w.db (chunk_key (object_key bucket key) i) ≡ ok (some m)
            → i * c.chunk_size < local.content_length)
        → Tracked w

  -- The first step: of the object nothing is cached any more.
  record Cleared (w : World env) (r : Result (Unit {0}) × World env) : Type 0 where
    returns : r.0 ≡ ok tt
    bare :
        (i : ℕ) (m : ChunkMetadata)
        → chunks env works r.1.db (chunk_key (object_key bucket key) i) ≢ ok (some m)
    remote_lem : r.1.remote ≡ w.remote

  drop_cache-Cleared :
      (w : World env)
      → 0 < c.chunk_size
      → Tracked w
      → Cleared w (drop_cache_for_object env c bucket key w)
  drop_cache-Cleared w pos (unknown e bare) =
      let dk = object_key bucket key in
      let deleted = delete_object-ObjectAt env works dk w.db in
      rw (drop_cache_none env works c bucket key w e) (record {
        returns = refl;
        bare = λ i m found. bare i m (sym (deleted.chunks_lem (chunk_key dk i)) ∙ found);
        remote_lem = refl;
      })
  drop_cache-Cleared w pos (tracked local e within) =
      let dk = object_key bucket key in
      let dropped = drop_cache-Drops env works c bucket key local w pos e in
      record {
        returns = dropped.returns;
        bare = λ i m found.
            ground (arith, found, dropped.chunks_lem (chunk_key dk i), dropped.gone i, within i m);
        remote_lem = dropped.remote_lem;
      }

  -- After the method: the object is recorded with its tag, exactly the chunks of the body are
  -- cached, each with its bytes, and upstream the body is uploaded.
  pub record IsPut (body : Bytes) (content_type : Option Text) (etag : Text)
      (remote : env.upstream.Remote) (r : Result Text × World env) : Type 0 where
    pub returns : r.0 ≡ ok etag
    pub last_modified : ℤ
    pub recorded :
        objects env works r.1.db (object_key bucket key)
        ≡ ok (
            some (record {
              content_length = length body;
              content_type = content_type;
              etag = some etag;
              last_modified = last_modified;
            }))
    pub cached :
        (i : ℕ)
        → i * c.chunk_size < length body
        → (m : ChunkMetadata) × (chunks env works r.1.db (chunk_key (object_key bucket key) i)
            ≡ ok (some m))
          × (is_complete m.status ≡ true)
    pub only :
        (i : ℕ) (m : ChunkMetadata)
        → chunks env works r.1.db (chunk_key (object_key bucket key) i) ≡ ok (some m)
        → i * c.chunk_size < length body
    pub files :
        (i : ℕ)
        → i * c.chunk_size < length body
        → chunk_file env works c.storage r.1.disk (object_key bucket key) i
          ≡ some (chunk_bytes c.chunk_size i body)
    pub uploaded : r.1.remote ≡ remote

  -- What is left to do when the body is on disk and the upload has given its tag.
  finish-IsPut :
      (body : Bytes) (content_type : Option Text) (etag : Text) (n : ℕ) (u : Upload) (w : World env)
      → ((i : ℕ) (m : ChunkMetadata)
          → chunks env works w.db (chunk_key (object_key bucket key) i) ≢ ok (some m))
      → u.stream_processing_result ≡ ok tt
      → u.chunks_written ≡ chunk_sizes c.chunk_size body n
      → ((i : ℕ) → (i < n) ↔ (i * c.chunk_size < length body))
      → ((i : ℕ)
          → i < n
          → chunk_file env works c.storage w.disk (object_key bucket key) i
            ≡ some (chunk_bytes c.chunk_size i body))
      → IsPut body content_type etag w.remote
          (finish env c bucket key (length body) content_type u (ok etag) w)
  unfolding finish now_secs
  finish-IsPut body content_type etag n u w bare going written counts files =
      let dk = object_key bucket key in
      let reg = register_chunks-Registered env works c dk c.chunk_size body n w in
      let w' = reg.after in
      let m : ObjectMetadata = record {
        content_length = length body;
        content_type = content_type;
        etag = some etag;
        last_modified = as_i64 (env.clock w'.readings);
      } in
      let put = put_object-ObjectAt env works dk m w'.db in
      rw (going, written, reg.ends, put.returns)
        (record {
          returns = refl;
          last_modified = m.last_modified;
          recorded = put.objects_lem dk ∙ rw (text_eq_refl dk);
          cached = λ i h.
              let (e, there, done, _) = reg.entries i ((counts i).1 h) in
              (e, put.chunks_lem (chunk_key dk i) ∙ there, done);
          only = λ i e found. elim (Bool-cases (ltb i n)) [
            | inl inside ↦ (counts i).0 (ltb→lt i n inside)
            | inr outside ↦ absurd (
                bare i e (
                  sym (
                    put.chunks_lem (chunk_key dk i)
                    ∙ reg.others (chunk_key dk i)
                        (λ k l. other_key env works c dk i k (ground arith)))
                  ∙ found))
          ];
          files = λ i h. rw reg.disk (files i ((counts i).1 h));
          uploaded = reg.remote;
        })

  -- For a positive chunk size, a body that comes in pieces, none of them an error, whose length
  -- is the announced one, an upload task that takes all of it and succeeds, and a database whose
  -- chunks of the key lie inside the recorded length: the tag is returned, the object is
  -- recorded with that tag and length, exactly the chunks of the body are cached, complete and
  -- with its bytes, and upstream has changed by that upload alone.
  pub write_and_cache-IsPut :
      (closed : ℕ → Bool) (pieces : List Bytes) (content_type : Option Text) (etag : Text)
      (remote : env.upstream.Remote) (w : World env)
      → 0 < c.chunk_size
      → ((n : ℕ) → closed n ≡ false)
      → Tracked w
      → env.upstream.put_object_stream bucket key
          (map ok pieces)
          (length (concat pieces))
          content_type
          w.remote
        ≡ (ok etag, remote)
      → IsPut (concat pieces) content_type etag remote (
          write_and_cache_object env c bucket key closed
            (map ok pieces)
            (length (concat pieces))
            content_type
            w)
  unfolding write_and_cache_object
  write_and_cache-IsPut closed pieces content_type etag remote w pos open_lem cache taken =
      let dk = object_key bucket key in
      let cleared = drop_cache-Cleared w pos cache in
      let w₁ = (drop_cache_for_object env c bucket key w).1 in
      let (u, looped, cut) = body-IsCut env works c dk w₁ pos closed pieces open_lem in
      let sent = cut.sent_lem in
      rw (cleared.returns, looped, cut.returns, sent, cut.remote, cleared.remote_lem, taken)
        (finish-IsPut (concat pieces) content_type etag cut.count cut.upload _
          (λ i m. rw cut.db (cleared.bare i m)) cut.going cut.written cut.counts cut.files)

  -- What was put is what is read: for a positive chunk size, after an upload through the cache
  -- of a body whose length and a chunk fit in 64 bits, that came in pieces without an error,
  -- with its length announced, to an upload task that took all of it, and over a database whose
  -- chunks of the key lay inside the recorded length: if upstream then holds that body, a client
  -- reads exactly its bytes in the range that it asks for.
  pub read_bytes-write_and_cache :
      (up : UpstreamReads env.upstream) (closed : ℕ → Bool) (pieces : List Bytes)
      (content_type : Option Text) (etag : Text) (remote : env.upstream.Remote) (w : World env)
      (s : Stored) (start end : ℕ)
      → 0 < c.chunk_size
      → length (concat pieces) + c.chunk_size ≤ 2 ^ 64
      → ((n : ℕ) → closed n ≡ false)
      → Tracked w
      → env.upstream.put_object_stream bucket key
          (map ok pieces)
          (length (concat pieces))
          content_type
          w.remote
        ≡ (ok etag, remote)
      → up.stored remote bucket key ≡ some s
      → s.bytes ≡ concat pieces
      → let w' : World env =
          (write_and_cache_object env c bucket key closed
            (map ok pieces)
            (length (concat pieces))
            content_type
            w).1 in
        (read : List Bytes) × ((read_bytes env works up c bucket key s start end w').0 ≡ ok read)
        × (concat read ≡ slice start (min end (length (concat pieces))) (concat pieces))
  read_bytes-write_and_cache up closed pieces content_type etag remote w s start end pos small
        open_lem cache taken there same =
      let put =
        write_and_cache-IsPut closed pieces content_type etag remote w pos open_lem cache taken in
      let knows =
        known _ put.recorded put.only
          (λ e n i m found done. rw same (put.files i (put.only i m found))) in
      let (read, returns, bytes, _) =
        read_bytes-slice env works up c bucket key s _ start end pos (rw same small)
          (rw put.uploaded there) knows in
      (read, returns, bytes ∙ ap (λ b. slice start (min end (length b)) b) same)
