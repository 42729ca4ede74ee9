-- ===== src/Cache/Write/Cut.antt =====
-- The loop of `write_and_cache_object` over the body, and the last chunk: the body is cut into its
-- chunks.
use s3xc.Prelude.{
  ℕ, suc, ◌+◌, ◌-◌, ◌*◌, ◌<◌, ◌≡◌, ◌↔◌, refl, sym, ap, ◌∙◌, Bool, true, false, inl, inr, some, List,
  [], ◌∷◌, ◌++◌, Bytes, Text, length, drop, concat, map, length-drop, take_all, append_assoc,
  append-nil, arith, ◌==◌, ==_iff, Bool-cases,
}
use s3xc.Io.{Result, ok}
use s3xc.Str.{is_empty}
use s3xc.External.{Env, World}
use s3xc.External.Works.{EnvWorks}
use s3xc.Cache.Storage.Laws.{chunk_file, write_chunk_lem}
use s3xc.Cache.Chunks.{chunk_bytes}
use s3xc.Cache.Coordinator.{CacheCoordinator}
use s3xc.Cache.Write.{Upload, start, write_full, process_body, write_last}
use s3xc.Cache.Write.Fill.{
  chunk_sizes, full_chunks-chunk_sizes, Filled, start-Filled, write_at, write_at-file,
  write_at-others, Ends, write_full-Ends, grow-Filled,
}

module _ (env : Env) (works : EnvWorks env) (c : CacheCoordinator) (dk : Text) (w₀ : World env)
    (pos : 0 < c.chunk_size) where
  process_body_step :
      (closed : ℕ → Bool) (bytes : Bytes) (body : List (Result Bytes)) (u u' : Upload)
      (w : World env)
      → closed (length u.sent) ≡ false
      → (write_full env c dk
          (suc (length (u.current_chunk_buffer ++ bytes)))
          (record u {
            sent = u.sent ++ ok bytes ∷ [];
            current_chunk_buffer = u.current_chunk_buffer ++ bytes;
          })
          w).0
        ≡ ok u'
      → u'.stream_processing_result ≡ ok tt
      → process_body env c dk closed (ok bytes ∷ body) u w
        ≡ process_body env c dk closed body u'
            (write_full env c dk
              (suc (length (u.current_chunk_buffer ++ bytes)))
              (record u {
                sent = u.sent ++ ok bytes ∷ [];
                current_chunk_buffer = u.current_chunk_buffer ++ bytes;
              })
              w).1
  unfolding process_body
  process_body_step closed bytes body u u' w open_lem wrote going = ground arith

  resent :
      {body : Bytes} {sent sent' : List (Result Bytes)} (r : Result Upload × World env)
      → Ends env works c dk w₀ pos body sent r
      → sent ≡ sent'
      → Ends env works c dk w₀ pos body sent' r
  resent r ends e = record {
    upload = ends.upload;
    returns = ends.returns;
    filled = ends.filled;
    short = ends.short;
    sent_lem = ends.sent_lem ∙ e;
  }

  process_body_nil :
      (closed : ℕ → Bool) (u : Upload) (w : World env)
      → process_body env c dk closed [] u w ≡ (ok u, w)
  unfolding process_body
  process_body_nil closed u w = refl

  -- The loop over a body that comes in pieces, none of them an error, to an upload that takes them
  -- all.
  process_body-Ends :
      (closed : ℕ → Bool) (pieces : List Bytes) (body : Bytes) (w : World env) (u : Upload)
      → ((n : ℕ) → closed n ≡ false)
      → Filled env works c dk w₀ pos body w u
      → length u.current_chunk_buffer < c.chunk_size
      → Ends env works c dk w₀ pos
          (body ++ concat pieces)
          (u.sent ++ map ok pieces)
          (process_body env c dk closed (map ok pieces) u w)
  process_body-Ends closed [] body w u open_lem f short = rw process_body_nil (record {
    upload = u;
    returns = refl;
    filled = rw append-nil f;
    short = short;
    sent_lem = sym (append-nil u.sent);
  })
  process_body-Ends closed (bytes ∷ pieces) body w u open_lem f short =
      let buffer = u.current_chunk_buffer ++ bytes in
      let grown : Upload = record u {
        sent = u.sent ++ ok bytes ∷ [];
        current_chunk_buffer = buffer;
      } in
      let step =
        write_full-Ends env works c dk w₀ pos (suc (length buffer)) (body ++ bytes) w grown
          (grow-Filled env works c dk w₀ pos body bytes grown.sent w u f) (omega arith) in
      let rest =
        process_body-Ends closed pieces (body ++ bytes) _ step.upload open_lem step.filled
          step.short in
      rw
        (
          process_body_step closed bytes (map ok pieces) u step.upload w (open_lem _) step.returns
              step.filled.going,
          ← append_assoc body bytes (concat pieces),
        )
        (resent _ rest (
          ap (λ l. l ++ map ok pieces) step.sent_lem
          ∙ append_assoc u.sent (ok bytes ∷ []) (map ok pieces)))

  -- All of the body is on disk, in `count` chunks.
  pub record IsCut (body : Bytes) (sent : List (Result Bytes)) (r : Result Upload × World env)
      : Type 0 where
    pub upload : Upload
    pub count : ℕ
    pub returns : r.0 ≡ ok upload
    pub going : upload.stream_processing_result ≡ ok tt
    pub counts : (i : ℕ) → (i < count) ↔ (i * c.chunk_size < length body)
    pub files :
        (i : ℕ)
        → i < count
        → chunk_file env works c.storage r.1.disk dk i ≡ some (chunk_bytes c.chunk_size i body)
    pub written : upload.chunks_written ≡ chunk_sizes c.chunk_size body count
    pub sent_lem : upload.sent ≡ sent
    pub db : r.1.db ≡ w₀.db
    pub remote : r.1.remote ≡ w₀.remote

  is_empty-length : (b : Bytes) → is_empty b ≡ true → length b ≡ 0
  is_empty-length [] h = refl
  is_empty-length (x ∷ b) h = cc

  is_empty-length_pos : (b : Bytes) → is_empty b ≡ false → 0 < length b
  is_empty-length_pos [] h = cc
  is_empty-length_pos (x ∷ b) h = omega arith

  counts_full : (n len : ℕ) → n * c.chunk_size ≡ len → (i : ℕ) → (i < n) ↔ (i * c.chunk_size < len)
  counts_full n len e i = (λ h. grind arith, λ h. grind arith)

  counts_rest :
      (n len : ℕ)
      → n * c.chunk_size < len
      → len < n * c.chunk_size + c.chunk_size
      → (i : ℕ) → (i < suc n) ↔ (i * c.chunk_size < len)
  counts_rest n len h k i = (λ l. grind arith, λ l. grind arith)

  write_last_none :
      (u : Upload) (w : World env)
      → u.stream_processing_result ≡ ok tt
      → is_empty u.current_chunk_buffer ≡ true
      → write_last env c dk u w ≡ (ok u, w)
  unfolding write_last
  write_last_none u w going none_left = ground arith

  write_last_some :
      (u : Upload) (w : World env)
      → u.stream_processing_result ≡ ok tt
      → is_empty u.current_chunk_buffer ≡ false
      → write_last env c dk u w ≡ (
        ok (record u {
          chunks_written =
              u.chunks_written ++ (u.current_chunk_idx, length u.current_chunk_buffer) ∷ [];
        }),
        write_at env works c dk w₀ pos u.current_chunk_idx u.current_chunk_buffer w,
      )
  unfolding write_last
  write_last_some u w going some_left =
      let wrote =
        (write_chunk_lem env works c.storage dk u.current_chunk_idx u.current_chunk_buffer
          w.disk).0 in
      ground (arith, wrote)

  write_last-IsCut :
      (body : Bytes) (sent : List (Result Bytes)) (w : World env) (u : Upload)
      → Filled env works c dk w₀ pos body w u
      → length u.current_chunk_buffer < c.chunk_size
      → u.sent ≡ sent
      → IsCut body sent (write_last env c dk u w)
  write_last-IsCut body sent w u f short e =
      let cs = c.chunk_size in
      let idx = u.current_chunk_idx in
      let buffer = u.current_chunk_buffer in
      let size : length buffer ≡ length body - idx * cs =
        ap length f.buffer ∙ length-drop (idx * cs) body in
      elim (Bool-cases (is_empty buffer)) [
        | inl nothing_left ↦
            let zero_left : length buffer ≡ 0 = is_empty-length buffer nothing_left in
            rw (write_last_none u w f.going nothing_left) (record {
              upload = u;
              count = idx;
              returns = refl;
              going = f.going;
              counts = counts_full idx (length body) (omega (arith, f.reach));
              files = f.files;
              written = f.written ∙ full_chunks-chunk_sizes cs body idx f.reach;
              sent_lem = e;
              db = f.db;
              remote = f.remote;
            })
        | inr some_left ↦
            let more = is_empty-length_pos buffer some_left in
            let whole : buffer ≡ chunk_bytes cs idx body =
              f.buffer
              ∙ sym (
                  take_all cs (drop (idx * cs) body)
                    (omega (arith, length-drop (idx * cs) body))) in
            rw (write_last_some u w f.going some_left) (record {
              upload = record u { chunks_written = u.chunks_written ++ (idx, length buffer) ∷ [] };
              count = suc idx;
              returns = refl;
              going = f.going;
              counts = counts_rest idx (length body) (omega arith) (omega arith);
              files = λ i h. elim (Bool-cases (i == idx)) [
                | inl same ↦
                    rw ((==_iff i idx).0 same)
                      (write_at-file env works c dk w₀ pos idx buffer w ∙ ap some whole)
                | inr other ↦
                    write_at-others env works c dk w₀ pos idx i buffer w (ground arith)
                    ∙ f.files i (ground arith)
              ];
              written =
                  ap (λ l. l ++ (idx, length buffer) ∷ [])
                    (f.written ∙ full_chunks-chunk_sizes cs body idx f.reach)
                  ∙ ap (λ b. chunk_sizes cs body idx ++ (idx, length b) ∷ []) whole;
              sent_lem = e;
              db = f.db;
              remote = f.remote;
            })
      ]

  -- For a positive chunk size, and a body that comes in pieces, none of them an error, to an
  -- upload that takes them all: both loops end without an error, the chunks of the body are on
  -- disk with its bytes, their indices and sizes are noted in order, and the pieces were sent
  -- upstream as they came, the database and the store being as before.
  pub body-IsCut :
      (closed : ℕ → Bool) (pieces : List Bytes)
      → ((n : ℕ) → closed n ≡ false)
      → (u : Upload) × ((process_body env c dk closed (map ok pieces) start w₀).0 ≡ ok u)
        × IsCut
            (concat pieces)
            (map ok pieces)
            (write_last env c dk u (process_body env c dk closed (map ok pieces) start w₀).1)
  body-IsCut closed pieces open_lem =
      let loop =
        process_body-Ends closed pieces [] w₀ start open_lem (start-Filled env works c dk w₀ pos)
          pos in
      (
        loop.upload,
        loop.returns,
        write_last-IsCut (concat pieces) (map ok pieces) _ loop.upload loop.filled loop.short
            loop.sent_lem,
      )
