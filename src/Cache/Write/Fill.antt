-- ===== src/Cache/Write/Fill.antt =====
-- The inner loop of `write_and_cache_object`, `while current_chunk_buffer.len() >= chunk_size`.
use s3xc.Prelude.{
  ℕ, zero, suc, ◌+◌, ◌-◌, ◌*◌, ◌≤◌, ◌<◌, ◌≡◌, ◌≢◌, refl, sym, ap, ◌∙◌, inl, inr, some, List, [],
  ◌∷◌, ◌++◌, Bytes, Text, length, take, drop, length-append, length-take, length-drop, drop-drop,
  drop-append_left, drop_all, arith, leb, leb→le, ◌==◌, ==_iff, Bool-cases,
}
use s3xc.Io.{Result, ok}
use s3xc.External.{Env, World}
use s3xc.External.Works.{EnvWorks}
use s3xc.Cache.Storage
use s3xc.Cache.Storage.Laws.{chunk_file, same_file_self, same_file_ne, write_chunk_lem}
use s3xc.Cache.Chunks.{chunk_bytes, chunk_bytes-append}
use s3xc.Cache.Coordinator.{CacheCoordinator}
use s3xc.Cache.Write.{Upload, start, write_full}

-- The indices and sizes of `n` full chunks.
abbrev pub full_chunks : ℕ → ℕ → List (ℕ × ℕ)
full_chunks cs zero = []
full_chunks cs (suc n) = full_chunks cs n ++ (n, cs) ∷ []

-- The indices and sizes of the first `n` chunks of an object.
abbrev pub chunk_sizes : ℕ → Bytes → ℕ → List (ℕ × ℕ)
chunk_sizes cs body zero = []
chunk_sizes cs body (suc n) = chunk_sizes cs body n ++ (n, length (chunk_bytes cs n body)) ∷ []

pub full_chunks-chunk_sizes :
    (cs : ℕ) (body : Bytes) (n : ℕ)
    → n * cs ≤ length body
    → full_chunks cs n ≡ chunk_sizes cs body n
full_chunks-chunk_sizes cs body zero h = refl
full_chunks-chunk_sizes cs body (suc n) h =
    let size : cs ≡ length (chunk_bytes cs n body) =
      omega (arith, length-take cs (drop (n * cs) body), length-drop (n * cs) body) in
    ap (λ l. l ++ (n, cs) ∷ []) (full_chunks-chunk_sizes cs body n (omega arith))
    ∙ ap (λ k. chunk_sizes cs body n ++ (n, k) ∷ []) size

module _ (env : Env) (works : EnvWorks env) (c : CacheCoordinator) (dk : Text) (w₀ : World env)
    (pos : 0 < c.chunk_size) where
  -- Of the bytes `body` the full chunks are on disk, and the rest is in the buffer; only the disk
  -- has changed since `w₀`.
  pub record Filled (body : Bytes) (w : World env) (u : Upload) : Type 0 where
    pub going : u.stream_processing_result ≡ ok tt
    pub reach : u.current_chunk_idx * c.chunk_size ≤ length body
    pub buffer : u.current_chunk_buffer ≡ drop (u.current_chunk_idx * c.chunk_size) body
    pub files :
        (i : ℕ)
        → i < u.current_chunk_idx
        → chunk_file env works c.storage w.disk dk i ≡ some (chunk_bytes c.chunk_size i body)
    pub written : u.chunks_written ≡ full_chunks c.chunk_size u.current_chunk_idx
    pub db : w.db ≡ w₀.db
    pub remote : w.remote ≡ w₀.remote

  -- Nothing of the body has come.
  pub start-Filled : Filled [] w₀ start
  start-Filled = record {
    going = refl;
    reach = omega arith;
    buffer = sym (drop_all (0 * c.chunk_size) [] (omega arith));
    files = λ i h. absurd (omega arith);
    written = refl;
    db = refl;
    remote = refl;
  }

  -- One round of the inner loop: the first chunk of the buffer is written.
  abbrev pub round_upload : Upload → Upload
  round_upload u = record u {
    current_chunk_idx = u.current_chunk_idx + 1;
    current_chunk_buffer = drop c.chunk_size u.current_chunk_buffer;
    chunks_written = u.chunks_written ++ (u.current_chunk_idx, c.chunk_size) ∷ [];
  }

  abbrev pub write_at : ℕ → Bytes → World env → World env
  write_at idx bytes w = record w {
    disk = (Storage.write_chunk env c.storage dk idx bytes w.disk).1;
  }

  pub write_at-file :
      (idx : ℕ) (bytes : Bytes) (w : World env)
      → chunk_file env works c.storage (write_at idx bytes w).disk dk idx ≡ some bytes
  write_at-file idx bytes w =
      (write_chunk_lem env works c.storage dk idx bytes w.disk).1 dk idx
      ∙ rw (same_file_self env works c.storage dk idx)

  pub write_at-others :
      (idx i : ℕ) (bytes : Bytes) (w : World env)
      → idx ≢ i
      → chunk_file env works c.storage (write_at idx bytes w).disk dk i
        ≡ chunk_file env works c.storage w.disk dk i
  write_at-others idx i bytes w h =
      (write_chunk_lem env works c.storage dk idx bytes w.disk).1 dk i
      ∙ rw (same_file_ne env works c.storage dk idx i h)

  round-Filled :
      (body : Bytes) (w : World env) (u : Upload)
      → Filled body w u
      → c.chunk_size ≤ length u.current_chunk_buffer
      → Filled body
          (write_at u.current_chunk_idx (take c.chunk_size u.current_chunk_buffer) w)
          (round_upload u)
  round-Filled body w u f fits =
      let cs = c.chunk_size in
      let idx = u.current_chunk_idx in
      let size : length u.current_chunk_buffer ≡ length body - idx * cs =
        ap length f.buffer ∙ length-drop (idx * cs) body in
      record {
        going = f.going;
        reach = omega arith;
        buffer =
            ap (drop cs) f.buffer
            ∙ drop-drop cs (idx * cs) body
            ∙ ap (λ n. drop n body) {x = idx * cs + cs} {y = (idx + 1) * cs} (omega arith);
        files = λ i h. elim (Bool-cases (i == idx)) [
          | inl same ↦
              rw ((==_iff i idx).0 same)
                (write_at-file idx _ w ∙ ap (λ b. some (take cs b)) f.buffer)
          | inr other ↦ write_at-others idx i _ w (ground arith) ∙ f.files i (ground arith)
        ];
        written =
            ap (λ l. l ++ (idx, cs) ∷ []) f.written
            ∙ ap (full_chunks cs) {x = suc idx} {y = idx + 1} (omega arith);
        db = f.db;
        remote = f.remote;
      }

  -- What a loop leaves where nothing failed: the full chunks of `body` written, less than a chunk in
  -- the buffer, and `sent` sent.
  pub record Ends (body : Bytes) (sent : List (Result Bytes)) (r : Result Upload × World env)
      : Type 0 where
    pub upload : Upload
    pub returns : r.0 ≡ ok upload
    pub filled : Filled body r.1 upload
    pub short : length upload.current_chunk_buffer < c.chunk_size
    pub sent_lem : upload.sent ≡ sent

  -- The inner loop ends on the fuel that it is given.
  pub write_full-Ends :
      (fuel : ℕ) (body : Bytes) (w : World env) (u : Upload)
      → Filled body w u
      → length u.current_chunk_buffer < fuel
      → Ends body u.sent (write_full env c dk fuel u w)
  unfolding write_full
  write_full-Ends zero body w u f h = absurd (omega arith)
  write_full-Ends (suc fuel) body w u f h =
      let buffer = u.current_chunk_buffer in
      let chunk_data = take c.chunk_size buffer in
      elim (Bool-cases (leb c.chunk_size (length buffer))) [
        | inl more ↦
            let le = leb→le _ _ more in
            let (wrote, _) =
              write_chunk_lem env works c.storage dk u.current_chunk_idx chunk_data w.disk in
            let rest =
              write_full-Ends fuel body (write_at u.current_chunk_idx chunk_data w) (round_upload u)
                (round-Filled body w u f le) (omega (arith, length-drop c.chunk_size buffer)) in
            rw (more, wrote) rest
        | inr less ↦ rw less (record {
          upload = u;
          returns = refl;
          filled = f;
          short = ground arith;
          sent_lem = refl;
        })
      ]

  -- More bytes in the buffer are more bytes of the body.
  pub grow-Filled :
      (body bytes : Bytes) (sent : List (Result Bytes)) (w : World env) (u : Upload)
      → Filled body w u
      → Filled
          (body ++ bytes)
          w
          (record u { sent = sent; current_chunk_buffer = u.current_chunk_buffer ++ bytes })
  grow-Filled body bytes sent w u f =
      let cs = c.chunk_size in
      record {
        going = f.going;
        reach = omega (arith, f.reach, length-append body bytes);
        buffer =
            ap (λ b. b ++ bytes) f.buffer
            ∙ sym (drop-append_left (u.current_chunk_idx * cs) body bytes f.reach);
        files = λ i h.
            f.files i h
            ∙ ap some
                (sym (chunk_bytes-append cs i body bytes (before i u.current_chunk_idx h f.reach)));
        written = f.written;
        db = f.db;
        remote = f.remote;
      }
    where
      before :
          (i n : ℕ)
          → i < n
          → n * c.chunk_size ≤ length body
          → i * c.chunk_size + c.chunk_size ≤ length body
      before i n h k = grind arith
