-- ===== src/Cache/Policy/Evict.antt =====
-- The loop of `check_and_evict`: which chunks it deletes, and what it leaves alone.
use s3xc.Prelude.{
  ℕ, ◌+◌, ◌^◌, ◌≤◌, ◌<◌, ◌≡◌, refl, sym, ap, ◌∙◌, true, false, ◌⊎◌, inl, inr, none, some, List, [],
  ◌∷◌, ◌++◌, Text, text_eq, text_eq_refl, All, arith, leb, leb→le, Bool-cases,
}
use s3xc.Io.{Result, ok}
use s3xc.External.{Env, World}
use s3xc.External.Works.{EnvWorks}
use s3xc.Str.Decimal.{u64_max}
use s3xc.Cache.Keys.{chunk_key, split_chunk_key, split_chunk_key-chunk_key, chunk_key_inj}
use s3xc.Cache.Metadata
use s3xc.Cache.Metadata.Laws.{objects, chunks, delete_chunk-ChunkAt}
use s3xc.Cache.Storage
use s3xc.Cache.Storage.Laws.{
  chunk_file, same_file, same_file_self, delete_chunk_returns, delete_chunk-chunk_file,
}
use s3xc.Cache.Coordinator.{u64}
use s3xc.Cache.Policy.{EvictionManager, Candidate, evict}

-- The bytes that candidates take.
abbrev pub sizes : List Candidate → ℕ
sizes [] = 0
sizes (x ∷ xs) = x.size + sizes xs

-- A key in the database that `chunk_key` has made, of an index that fits a `u64`.
pub record IsChunkKey (db_key : Text) : Type 0 where
  pub key : Text
  pub idx : ℕ
  pub made : db_key ≡ chunk_key key idx
  pub fits : idx ≤ u64_max

module _ (env : Env) (works : EnvWorks env) (m : EvictionManager) where
  -- The loop has deleted the candidates up to some place in the list, from the database and from the
  -- disk, and nothing else. It has stopped there because enough bytes were freed, or at the end of
  -- the list, and each of those deleted was still needed.
  pub record Evicts (bytes_to_evict : ℕ) (xs : List Candidate) (n : ℕ) (w : World env)
      (r : Result ℕ × World env) : Type 0 where
    pub evicted : List Candidate
    pub kept : List Candidate
    pub split : xs ≡ evicted ++ kept
    pub returns : r.0 ≡ ok (n + sizes evicted)
    pub enough : (kept ≡ []) ⊎ (bytes_to_evict ≤ n + sizes evicted)
    pub needed :
        (before after : List Candidate) (x : Candidate)
        → evicted ≡ before ++ x ∷ after
        → n + sizes before < bytes_to_evict
    pub gone : All (λ x. chunks env works r.1.db x.db_key ≡ ok none) evicted
    pub no_file :
        All
          (λ x.
            (key : Text) (idx : ℕ)
            → x.db_key ≡ chunk_key key idx
            → chunk_file env works m.storage r.1.disk key idx ≡ none)
          evicted
    pub shrinks :
        (j : Text)
        → (chunks env works r.1.db j ≡ chunks env works w.db j)
          ⊎ (chunks env works r.1.db j ≡ ok none)
    pub spared :
        (j : Text)
        → All (λ x. text_eq x.db_key j ≡ false) evicted
        → chunks env works r.1.db j ≡ chunks env works w.db j
    pub files_shrink :
        (j : Text) (i : ℕ)
        → (chunk_file env works m.storage r.1.disk j i ≡ chunk_file env works m.storage w.disk j i)
          ⊎ (chunk_file env works m.storage r.1.disk j i ≡ none)
    pub files_spared :
        (j : Text) (i : ℕ)
        → All
            (λ x.
              (key : Text) (idx : ℕ)
              → x.db_key ≡ chunk_key key idx
              → same_file env works m.storage key idx j i ≡ false)
            evicted
        → chunk_file env works m.storage r.1.disk j i ≡ chunk_file env works m.storage w.disk j i
    pub objects_lem : (j : Text) → objects env works r.1.db j ≡ objects env works w.db j
    pub remote_lem : r.1.remote ≡ w.remote

  after_one : Text → ℕ → World env → World env
  after_one key idx w = record w {
    db = (Metadata.delete_chunk env key idx w.db).1;
    disk = (Storage.delete_chunk env m.storage key idx w.disk).1;
  }

  evict_nil : (bte n : ℕ) (w : World env) → evict env m bte [] n w ≡ (ok n, w)
  unfolding evict
  evict_nil bte n w = refl

  evict_enough :
      (bte n : ℕ) (xs : List Candidate) (w : World env)
      → leb bte n ≡ true
      → evict env m bte xs n w ≡ (ok n, w)
  unfolding evict
  evict_enough bte n [] w e = refl
  evict_enough bte n (x ∷ xs) w e = rw e refl

  evict_one :
      (bte n : ℕ) (x : Candidate) (xs : List Candidate) (w : World env) (made : IsChunkKey x.db_key)
      → leb bte n ≡ false
      → evict env m bte (x ∷ xs) n w
        ≡ evict env m bte xs (u64 (n + x.size)) (after_one made.key made.idx w)
  unfolding evict after_one
  evict_one bte n x xs w made e =
      let found : split_chunk_key x.db_key ≡ some (made.key, made.idx) =
        ap split_chunk_key made.made ∙ split_chunk_key-chunk_key made.key made.idx made.fits in
      let (r, returned) = delete_chunk_returns env works m.storage made.key made.idx w.disk in
      let deleted = delete_chunk-ChunkAt env works made.key made.idx w.db in
      rw (e, found, returned, deleted.returns) refl

  -- Where the loop stops at once.
  evict_stops :
      (bte n : ℕ) (xs : List Candidate) (w : World env) (r : Result ℕ × World env)
      → (xs ≡ []) ⊎ (bte ≤ n)
      → r ≡ (ok n, w)
      → Evicts bte xs n w r
  evict_stops bte n xs w r enough e = rw e (record {
    evicted = [];
    kept = xs;
    split = refl;
    returns = ap ok {x = n} {y = n + 0} (omega arith);
    enough = ground (arith, enough);
    needed = λ before after x same. absurd (nil_ne before x after same);
    gone = tt;
    no_file = tt;
    shrinks = λ j. inl refl;
    spared = λ j h. refl;
    files_shrink = λ j i. inl refl;
    files_spared = λ j i h. refl;
    objects_lem = λ j. refl;
    remote_lem = refl;
  })
    where
      nil_ne : (a : List Candidate) (x : Candidate) (b : List Candidate) → [] ≡ a ++ x ∷ b → ⊥
      nil_ne [] x b e = cc
      nil_ne (y ∷ a) x b e = cc

  needed_cons :
      (bte n : ℕ) (x : Candidate) (evicted : List Candidate)
      → n < bte
      → ((before after : List Candidate) (y : Candidate)
          → evicted ≡ before ++ y ∷ after
          → n + x.size + sizes before < bte)
      → (before after : List Candidate) (y : Candidate) → x ∷ evicted ≡ before ++ y ∷ after
      → n + sizes before < bte
  needed_cons bte n x evicted less rest [] after y e = omega arith
  needed_cons bte n x evicted less rest (z ∷ before) after y e =
      let tails : evicted ≡ before ++ y ∷ after = cc in
      let heads : x.size ≡ z.size = cc in omega (arith, rest before after y tails)

  evict_more :
      (bte n : ℕ) (x : Candidate) (xs : List Candidate) (w : World env) (made : IsChunkKey x.db_key)
      (r : Result ℕ × World env)
      → n < bte
      → Evicts bte xs (n + x.size) (after_one made.key made.idx w) r
      → Evicts bte (x ∷ xs) n w r
  unfolding after_one
  evict_more bte n x xs w made r less rest =
      let deleted = delete_chunk-ChunkAt env works made.key made.idx w.db in
      let file = delete_chunk-chunk_file env works m.storage made.key made.idx w.disk in
      let hit = text_eq_refl (chunk_key made.key made.idx) in
      record {
        evicted = x ∷ rest.evicted;
        kept = rest.kept;
        split = ap (λ l. x ∷ l) rest.split;
        returns =
            rest.returns
            ∙ ap ok {x = n + x.size + sizes rest.evicted} {y = n + (x.size + sizes rest.evicted)}
                (omega arith);
        enough = ground (arith, rest.enough);
        needed = needed_cons bte n x rest.evicted less rest.needed;
        gone = (
          rw made.made (
              ground (
                arith,
                rest.shrinks (chunk_key made.key made.idx),
                deleted.chunks_lem (chunk_key made.key made.idx),
                hit,
              )),
          rest.gone,
        );
        no_file = (
          λ key idx e.
              let (same_key, same_idx) =
                chunk_key_inj made.key key made.idx idx (sym made.made ∙ e) in
              rw (← same_key, ← same_idx)
                (ground (
                  arith,
                  rest.files_shrink made.key made.idx,
                  file made.key made.idx,
                  same_file_self env works m.storage made.key made.idx,
                )),
          rest.no_file,
        );
        shrinks = λ j. ground (arith, deleted.chunks_lem j, rest.shrinks j);
        spared = λ j h.
            rest.spared j h.1
            ∙ ground (arith, deleted.chunks_lem j, h.0, ap (λ k. text_eq k j) made.made);
        files_shrink = λ j i. ground (arith, file j i, rest.files_shrink j i);
        files_spared = λ j i h.
            rest.files_spared j i h.1 ∙ ground (arith, file j i, h.0 made.key made.idx made.made);
        objects_lem = λ j. rest.objects_lem j ∙ deleted.objects_lem j;
        remote_lem = rest.remote_lem;
      }

  pub evict-Evicts :
      (bte n : ℕ) (xs : List Candidate) (w : World env)
      → All (λ x. IsChunkKey x.db_key) xs
      → n + sizes xs < 2 ^ 64
      → Evicts bte xs n w (evict env m bte xs n w)
  evict-Evicts bte n [] w keys small = evict_stops bte n [] w _ (inl refl) (evict_nil bte n w)
  evict-Evicts bte n (x ∷ xs) w keys small = elim (Bool-cases (leb bte n)) [
    | inl done ↦
        evict_stops bte n (x ∷ xs) w _ (inr (leb→le bte n done))
          (evict_enough bte n (x ∷ xs) w done)
    | inr more ↦
        let rest =
          evict-Evicts bte (n + x.size) xs (after_one keys.0.key keys.0.idx w) keys.1
            (omega arith) in
        let size : u64 (n + x.size) ≡ n + x.size = omega arith in
        rw (evict_one bte n x xs w keys.0 more, size)
          (evict_more bte n x xs w keys.0 _ (ground arith) rest)
  ]
