-- ===== src/Cache/Drop/Loop.antt =====
-- The loop over the chunks in `drop_cache_for_object` of `src/cache/mod.rs`.
use s3xc.Prelude.{
  ℕ, zero, suc, ◌+◌, ◌≤◌, ◌<◌, ◌≡◌, refl, ap, ◌∙◌, false, ◌⊎◌, inl, inr, none, Text, text_eq,
  text_eq_refl, arith, ◌==◌, ==_iff, Bool-cases,
}
use s3xc.Io.{Result, ok}
use s3xc.External.{Env, World}
use s3xc.External.Works.{EnvWorks}
use s3xc.Cache.Keys.{chunk_key}
use s3xc.Cache.Metadata
use s3xc.Cache.Metadata.Laws.{objects, chunks, delete_chunk-ChunkAt}
use s3xc.Cache.Storage
use s3xc.Cache.Storage.Laws.{
  chunk_file, same_file, same_file_self, delete_chunk_returns, delete_chunk-chunk_file,
}
use s3xc.Cache.Coordinator.{CacheCoordinator}
use s3xc.Cache.Drop.{drop_chunks}

module _ (env : Env) (works : EnvWorks env) (c : CacheCoordinator) where
  -- What a step that only deletes chunks of one object leaves: no chunk appears, and the database's
  -- objects, the upstream store, and the chunks and files of other objects are as they were.
  pub record Shrinks (dk : Text) (w w' : World env) : Type 0 where
    pub chunks_lem :
        (j : Text)
        → (chunks env works w'.db j ≡ chunks env works w.db j)
          ⊎ (chunks env works w'.db j ≡ ok none)
    pub others_lem :
        (j : Text)
        → ((n : ℕ) → text_eq (chunk_key dk n) j ≡ false)
        → chunks env works w'.db j ≡ chunks env works w.db j
    pub files_lem :
        (j : Text) (i : ℕ)
        → ((n : ℕ) → same_file env works c.storage dk n j i ≡ false)
        → chunk_file env works c.storage w'.disk j i ≡ chunk_file env works c.storage w.disk j i
    pub files_shrink :
        (j : Text) (i : ℕ)
        → (chunk_file env works c.storage w'.disk j i ≡ chunk_file env works c.storage w.disk j i)
          ⊎ (chunk_file env works c.storage w'.disk j i ≡ none)
    pub objects_lem : (j : Text) → objects env works w'.db j ≡ objects env works w.db j
    pub remote_lem : w'.remote ≡ w.remote

  Shrinks-refl : (dk : Text) (w : World env) → Shrinks dk w w
  Shrinks-refl dk w = record {
    chunks_lem = λ j. inl refl;
    others_lem = λ j h. refl;
    files_lem = λ j i h. refl;
    files_shrink = λ j i. inl refl;
    objects_lem = λ j. refl;
    remote_lem = refl;
  }

  Shrinks-trans : (dk : Text) (u v w : World env) → Shrinks dk u v → Shrinks dk v w → Shrinks dk u w
  Shrinks-trans dk u v w p q = record {
    chunks_lem = λ j. ground (arith, p.chunks_lem j, q.chunks_lem j);
    others_lem = λ j h. q.others_lem j h ∙ p.others_lem j h;
    files_lem = λ j i h. q.files_lem j i h ∙ p.files_lem j i h;
    files_shrink = λ j i. ground (arith, p.files_shrink j i, q.files_shrink j i);
    objects_lem = λ j. q.objects_lem j ∙ p.objects_lem j;
    remote_lem = q.remote_lem ∙ p.remote_lem;
  }

  -- The world after one round of the loop.
  after_round : Text → ℕ → World env → World env
  after_round dk idx w = record w {
    db = (Metadata.delete_chunk env dk idx w.db).1;
    disk = (Storage.delete_chunk env c.storage dk idx w.disk).1;
  }

  after_round-Shrinks : (dk : Text) (idx : ℕ) (w : World env) → Shrinks dk w (after_round dk idx w)
  unfolding after_round
  after_round-Shrinks dk idx w =
      let deleted = delete_chunk-ChunkAt env works dk idx w.db in
      record {
        chunks_lem = λ j. ground (arith, deleted.chunks_lem j);
        others_lem = λ j h. ground (arith, deleted.chunks_lem j, h idx);
        files_lem = λ j i h.
            ground (arith, delete_chunk-chunk_file env works c.storage dk idx w.disk j i, h idx);
        files_shrink =
            λ j i. ground (arith, delete_chunk-chunk_file env works c.storage dk idx w.disk j i);
        objects_lem = deleted.objects_lem;
        remote_lem = refl;
      }

  drop_chunks_step :
      (dk : Text) (rounds idx : ℕ) (w : World env)
      → drop_chunks env c dk (suc rounds) idx w
        ≡ drop_chunks env c dk rounds (idx + 1) (after_round dk idx w)
  unfolding drop_chunks after_round
  drop_chunks_step dk rounds idx w =
      let (r, e) = delete_chunk_returns env works c.storage dk idx w.disk in
      let deleted = delete_chunk-ChunkAt env works dk idx w.db in rw (e, deleted.returns)

  pub record DropsFrom (dk : Text) (rounds idx : ℕ) (w : World env)
      (r : Result (Unit {0}) × World env) : Type 0 where
    pub returns : r.0 ≡ ok tt
    pub shrinks : Shrinks dk w r.1
    pub gone :
        (i : ℕ) → idx ≤ i → i < idx + rounds → chunks env works r.1.db (chunk_key dk i) ≡ ok none
    pub no_file :
        (i : ℕ) → idx ≤ i → i < idx + rounds → chunk_file env works c.storage r.1.disk dk i ≡ none

  pub drop_chunks-DropsFrom :
      (dk : Text) (rounds idx : ℕ) (w : World env)
      → DropsFrom dk rounds idx w (drop_chunks env c dk rounds idx w)
  drop_chunks-DropsFrom dk zero idx w =
      unfold drop_chunks in
      record {
        returns = refl;
        shrinks = Shrinks-refl dk w;
        gone = λ i h k. absurd (omega arith);
        no_file = λ i h k. absurd (omega arith);
      }
  drop_chunks-DropsFrom dk (suc rounds) idx w =
      let next = after_round dk idx w in
      let first = after_round-Shrinks dk idx w in
      let rest = drop_chunks-DropsFrom dk rounds (idx + 1) next in
      let k = chunk_key dk idx in
      let this : chunks env works next.db k ≡ ok none =
        unfold after_round in
        ground (arith, (delete_chunk-ChunkAt env works dk idx w.db).chunks_lem k, text_eq_refl k) in
      let gone_first : chunks env works (drop_chunks env c dk rounds (idx + 1) next).1.db k
          ≡ ok none =
        ground (arith, rest.shrinks.chunks_lem k) in
      let file_gone : chunk_file env works c.storage next.disk dk idx ≡ none =
        unfold after_round in
        ground (
          arith,
          delete_chunk-chunk_file env works c.storage dk idx w.disk dk idx,
          same_file_self env works c.storage dk idx,
        ) in
      let end_disk = (drop_chunks env c dk rounds (idx + 1) next).1.disk in
      let file_first : chunk_file env works c.storage end_disk dk idx ≡ none =
        ground (arith, rest.shrinks.files_shrink dk idx, file_gone) in
      rw drop_chunks_step (record {
        returns = rest.returns;
        no_file = λ i h l. elim (Bool-cases (i == idx)) [
          | inl same ↦
              ap (λ n. chunk_file env works c.storage end_disk dk n) ((==_iff i idx).0 same)
              ∙ file_first
          | inr other ↦ rest.no_file i (ground arith) (ground arith)
        ];
        shrinks = Shrinks-trans dk w next _ first rest.shrinks;
        gone = λ i h l. elim (Bool-cases (i == idx)) [
          | inl same ↦
              ap
                (λ n.
                  chunks env works (drop_chunks env c dk rounds (idx + 1) next).1.db
                    (chunk_key dk n))
                ((==_iff i idx).0 same)
              ∙ gone_first
          | inr other ↦ rest.gone i (ground arith) (ground arith)
        ];
      })
