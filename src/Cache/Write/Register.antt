-- ===== src/Cache/Write/Register.antt =====
-- The loop of `write_and_cache_object` that records the chunks it has written.
use s3xc.Prelude.{
  ℕ, zero, suc, ◌+◌, ◌%◌, ◌^◌, ◌<◌, ◌≡◌, ◌≢◌, refl, sym, ap, ◌∙◌, true, false, inl, inr, some, List,
  [], ◌∷◌, ◌++◌, Bytes, Text, text_eq, text_eq_iff, text_eq_refl, length, arith, ◌==◌, ==_iff,
  Bool-cases,
}
use s3xc.Prelude.Int.{as_i64}
use s3xc.Io.{Result, ok}
use s3xc.External.{Env, World}
use s3xc.External.Works.{EnvWorks}
use s3xc.Cache.Keys.{chunk_key, chunk_key_inj}
use s3xc.Cache.Metadata
use s3xc.Cache.Metadata.Types.{ChunkMetadata, is_complete, complete}
use s3xc.Cache.Metadata.Laws.{objects, chunks, put_chunk-ChunkAt}
use s3xc.Cache.Chunks.{chunk_bytes}
use s3xc.Cache.Coordinator.{CacheCoordinator, now_secs}
use s3xc.Cache.Write.{register_chunks}
use s3xc.Cache.Write.Fill.{chunk_sizes}

module _ (env : Env) (works : EnvWorks env) (c : CacheCoordinator) (dk : Text) where
  -- The entry that a chunk gets.
  entry : ℕ → World env → ChunkMetadata
  entry size w = record {
    size = size % 2 ^ 32;
    last_accessed_at = as_i64 (env.clock w.readings);
    status = complete;
  }

  register_one : ℕ → ℕ → World env → World env
  register_one idx size w = record w {
    db = (Metadata.put_chunk env dk idx (entry size w) w.db).1;
    readings = w.readings + 1;
  }

  register_step :
      (idx size : ℕ) (rest : List (ℕ × ℕ)) (w : World env)
      → register_chunks env c dk ((idx, size) ∷ rest) w
        ≡ register_chunks env c dk rest (register_one idx size w)
  unfolding register_chunks register_one entry now_secs
  register_step idx size rest w =
      rw (put_chunk-ChunkAt env works dk idx (entry size w) w.db).returns refl

  register_nil : (w : World env) → register_chunks env c dk [] w ≡ (ok tt, w)
  unfolding register_chunks
  register_nil w = refl

  register_snoc :
      (xs : List (ℕ × ℕ)) (idx size : ℕ) (w w' : World env)
      → register_chunks env c dk xs w ≡ (ok tt, w')
      → register_chunks env c dk (xs ++ (idx, size) ∷ []) w ≡ (ok tt, register_one idx size w')
  register_snoc [] idx size w w' e =
      let same : w ≡ w' = ap (λ r. r.1) (sym (register_nil w) ∙ e) in
      rw same (register_step idx size [] w' ∙ register_nil _)
  register_snoc ((i, s) ∷ xs) idx size w w' e =
      register_step i s (xs ++ (idx, size) ∷ []) w
      ∙ register_snoc xs idx size (register_one i s w) w' (sym (register_step i s xs w) ∙ e)

  -- After the loop the first `n` chunks have an entry, and nothing else has changed.
  pub record Registered (cs : ℕ) (body : Bytes) (n : ℕ) (w : World env)
      (r : Result (Unit {0}) × World env) : Type 0 where
    pub after : World env
    pub ends : r ≡ (ok tt, after)
    pub entries :
        (i : ℕ)
        → i < n
        → (m : ChunkMetadata) × (chunks env works after.db (chunk_key dk i) ≡ ok (some m))
          × (is_complete m.status ≡ true)
          × (m.size ≡ length (chunk_bytes cs i body) % 2 ^ 32)
    pub others :
        (j : Text)
        → ((i : ℕ) → i < n → text_eq (chunk_key dk i) j ≡ false)
        → chunks env works after.db j ≡ chunks env works w.db j
    pub objects_lem : (j : Text) → objects env works after.db j ≡ objects env works w.db j
    pub disk : after.disk ≡ w.disk
    pub remote : after.remote ≡ w.remote

  -- Two chunks of an object have two keys.
  pub other_key : (i n : ℕ) → i ≢ n → text_eq (chunk_key dk n) (chunk_key dk i) ≡ false
  other_key i n h = elim (Bool-cases (text_eq (chunk_key dk n) (chunk_key dk i))) [
    | inl same ↦ absurd (h (sym (chunk_key_inj dk dk n i ((text_eq_iff _ _).0 same)).1))
    | inr other ↦ other
  ]

  -- Registering the first `n` chunks of a body gives each of them a complete entry with its size
  -- modulo 2 ^ 32, and changes no other entry, no object, no file, and nothing upstream.
  pub register_chunks-Registered :
      (cs : ℕ) (body : Bytes) (n : ℕ) (w : World env)
      → Registered cs body n w (register_chunks env c dk (chunk_sizes cs body n) w)
  unfolding register_one entry
  register_chunks-Registered cs body zero w = record {
    after = w;
    ends = register_nil w;
    entries = λ i h. absurd (omega arith);
    others = λ j h. refl;
    objects_lem = λ j. refl;
    disk = refl;
    remote = refl;
  }
  register_chunks-Registered cs body (suc n) w =
      let before = register_chunks-Registered cs body n w in
      let size = length (chunk_bytes cs n body) in
      let m = entry size before.after in
      let put = put_chunk-ChunkAt env works dk n m before.after.db in
      record {
        after = register_one n size before.after;
        ends = register_snoc (chunk_sizes cs body n) n size w before.after before.ends;
        entries = λ i h. elim (Bool-cases (i == n)) [
          | inl same ↦ (
            m,
            put.chunks_lem (chunk_key dk i)
                ∙ rw ((==_iff i n).0 same, text_eq_refl (chunk_key dk n)),
            refl,
            rw ((==_iff i n).0 same),
          )
          | inr other ↦
              let (m', there, complete', size') = before.entries i (ground arith) in
              (
                m',
                put.chunks_lem (chunk_key dk i) ∙ rw (other_key i n (ground arith)) there,
                complete',
                size',
              )
        ];
        others = λ j h.
            put.chunks_lem j ∙ rw (h n (omega arith)) (before.others j (λ i l. h i (omega arith)));
        objects_lem = λ j. put.objects_lem j ∙ before.objects_lem j;
        disk = before.disk;
        remote = before.remote;
      }
