-- ===== src/Cache/Copy/Round.antt =====
-- One round of the loop of `copy_cache_object`.
use s3xc.Prelude.{
  ℕ, suc, ◌+◌, ◌≡◌, refl, sym, ◌∙◌, true, false, Option, none, some, Bytes, Text, text_eq,
  text_eq_refl, if◌then◌else◌,
}
use s3xc.Io.{Result, ok}
use s3xc.External.{Env, World}
use s3xc.External.Works.{EnvWorks}
use s3xc.Cache.Keys.{chunk_key}
use s3xc.Cache.Metadata
use s3xc.Cache.Metadata.Types.{ChunkMetadata, is_complete}
use s3xc.Cache.Metadata.Laws.{objects, chunks, get_chunk-chunks, put_chunk-ChunkAt}
use s3xc.Cache.Storage.{chunk_path}
use s3xc.Cache.Storage.Paths.{chunk_dir, parent-chunk_path}
use s3xc.Cache.Storage.Laws.{chunk_file, same_file, same_file_self}
use s3xc.Cache.Coordinator.{CacheCoordinator}
use s3xc.Cache.Copy.{copy_file, copy_found, copy_chunks}

module _ (env : Env) (works : EnvWorks env) (c : CacheCoordinator) (src dest : Text) where
  -- The file of a chunk that is copied over.
  copy_file_lem :
      (idx : ℕ) (b : Bytes) (disk : env.fs.Fs)
      → chunk_file env works c.storage disk src idx ≡ some b
      → ((copy_file env c src dest idx disk).0 ≡ ok tt)
        × ((j : Text) (n : ℕ)
            → chunk_file env works c.storage (copy_file env c src dest idx disk).1 j n ≡ (
                if same_file env works c.storage dest idx j n
                then some b
                else chunk_file env works c.storage disk j n))
  unfolding copy_file
  copy_file_lem idx b disk e =
      let fs = works.fs in
      let from = chunk_path env c.storage src idx in
      let to = chunk_path env c.storage dest idx in
      let d = chunk_dir env works.digest c.storage dest in
      let in_dir = parent-chunk_path env works.digest c.storage dest idx in
      let made = (env.fs.create_dir_all d disk).1 in
      let e' : fs.content made from ≡ some b = fs.mkdir_content d disk from ∙ e in
      let is_made = fs.mkdir_is_dir d disk in
      rw (fs.present disk from b e, in_dir, fs.mkdir_ok d disk)
        (
          fs.copy_ok from to d b made e' in_dir is_made,
          λ j n.
              fs.copy_content from to d b made (chunk_path env c.storage j n) e' in_dir is_made
              ∙ rw (fs.mkdir_content d disk (chunk_path env c.storage j n)) refl,
        )

  -- What the source has of a chunk: no entry; an entry that is not complete; or a complete one with
  -- its file.
  pub data HasChunk (w : World env) (i : ℕ) : Type 0 where
    missing : chunks env works w.db (chunk_key src i) ≡ ok none → HasChunk w i
    partial :
        (m : ChunkMetadata)
        → chunks env works w.db (chunk_key src i) ≡ ok (some m)
        → is_complete m.status ≡ false
        → HasChunk w i
    whole :
        (m : ChunkMetadata) (b : Bytes)
        → chunks env works w.db (chunk_key src i) ≡ ok (some m)
        → is_complete m.status ≡ true
        → chunk_file env works c.storage w.disk src i ≡ some b
        → HasChunk w i

  -- The entry and the file that the destination has of a chunk after the copy, by what the source has
  -- and by what the destination had: where the source has no complete chunk the old one stays.
  pub copied_entry :
      {w : World env} {i : ℕ}
      → HasChunk w i
      → Result (Option ChunkMetadata)
      → Result (Option ChunkMetadata)
  copied_entry (missing e) old = old
  copied_entry (partial m e h) old = old
  copied_entry (whole m b e h f) old = ok (some m)

  pub copied_file : {w : World env} {i : ℕ} → HasChunk w i → Option Bytes → Option Bytes
  copied_file (missing e) old = old
  copied_file (partial m e h) old = old
  copied_file (whole m b e h f) old = some b

  -- One round of the loop.
  pub record CopiesOne (i : ℕ) (w : World env) (has : HasChunk w i) (w' : World env) : Type 0 where
    pub entry :
        chunks env works w'.db (chunk_key dest i)
        ≡ copied_entry has (chunks env works w.db (chunk_key dest i))
    pub file :
        chunk_file env works c.storage w'.disk dest i
        ≡ copied_file has (chunk_file env works c.storage w.disk dest i)
    pub other_entries :
        (j : Text)
        → text_eq (chunk_key dest i) j ≡ false
        → chunks env works w'.db j ≡ chunks env works w.db j
    pub other_files :
        (j : Text) (n : ℕ)
        → same_file env works c.storage dest i j n ≡ false
        → chunk_file env works c.storage w'.disk j n ≡ chunk_file env works c.storage w.disk j n
    pub objects_lem : (j : Text) → objects env works w'.db j ≡ objects env works w.db j
    pub remote_lem : w'.remote ≡ w.remote

  stays :
      (i : ℕ) (w : World env) (has : HasChunk w i)
      → copied_entry has (chunks env works w.db (chunk_key dest i))
        ≡ chunks env works w.db (chunk_key dest i)
      → copied_file has (chunk_file env works c.storage w.disk dest i)
        ≡ chunk_file env works c.storage w.disk dest i
      → CopiesOne i w has w
  stays i w has e f = record {
    entry = sym e;
    file = sym f;
    other_entries = λ j h. refl;
    other_files = λ j n h. refl;
    objects_lem = λ j. refl;
    remote_lem = refl;
  }

  -- A round returns.
  pub copy_round :
      (i rounds : ℕ) (w : World env) (has : HasChunk w i)
      → (w' : World env) × CopiesOne i w has w'
        × (copy_chunks env c src dest (suc rounds) i w
            ≡ copy_chunks env c src dest rounds (i + 1) w')
  unfolding copy_chunks copy_found copied_entry copied_file
  copy_round i rounds w (missing e) =
      (w, stays i w (missing e) refl refl, rw (get_chunk-chunks env works src i, e) refl)
  copy_round i rounds w (partial m e h) =
      (w, stays i w (partial m e h) refl refl, rw (get_chunk-chunks env works src i, e, h) refl)
  copy_round i rounds w (whole m b e h f) =
      let (done, files) = copy_file_lem i b w.disk f in
      let put = put_chunk-ChunkAt env works dest i m w.db in
      let w' : World env = record w {
        db = (Metadata.put_chunk env dest i m w.db).1;
        disk = (copy_file env c src dest i w.disk).1;
      } in
      (
        w',
        record {
          entry = put.chunks_lem (chunk_key dest i) ∙ rw (text_eq_refl (chunk_key dest i)) refl;
          file = files dest i ∙ rw (same_file_self env works c.storage dest i) refl;
          other_entries = λ j k. put.chunks_lem j ∙ rw k refl;
          other_files = λ j n k. files j n ∙ rw k refl;
          objects_lem = put.objects_lem;
          remote_lem = refl;
        },
        rw (get_chunk-chunks env works src i, e, h, done, put.returns) refl,
      )

  -- What the source has is the same after a round that leaves its entry and its file.
  pub keep :
      {w w' : World env} {i : ℕ}
      → HasChunk w i
      → chunks env works w'.db (chunk_key src i) ≡ chunks env works w.db (chunk_key src i)
      → chunk_file env works c.storage w'.disk src i ≡ chunk_file env works c.storage w.disk src i
      → HasChunk w' i
  keep (missing e) p q = missing (p ∙ e)
  keep (partial m e h) p q = partial m (p ∙ e) h
  keep (whole m b e h f) p q = whole m b (p ∙ e) h (q ∙ f)

  pub keep_entry :
      {w : World env} (w' : World env) {i : ℕ} (has : HasChunk w i)
      (p : chunks env works w'.db (chunk_key src i) ≡ chunks env works w.db (chunk_key src i))
      (q : chunk_file env works c.storage w'.disk src i
        ≡ chunk_file env works c.storage w.disk src i)
      (old : Result (Option ChunkMetadata))
      → copied_entry (keep {w = w} {w' = w'} has p q) old ≡ copied_entry has old
  unfolding keep copied_entry
  keep_entry w' (missing e) p q old = refl
  keep_entry w' (partial m e h) p q old = refl
  keep_entry w' (whole m b e h f) p q old = refl

  pub keep_file :
      {w : World env} (w' : World env) {i : ℕ} (has : HasChunk w i)
      (p : chunks env works w'.db (chunk_key src i) ≡ chunks env works w.db (chunk_key src i))
      (q : chunk_file env works c.storage w'.disk src i
        ≡ chunk_file env works c.storage w.disk src i)
      (old : Option Bytes)
      → copied_file (keep {w = w} {w' = w'} has p q) old ≡ copied_file has old
  unfolding keep copied_file
  keep_file w' (missing e) p q old = refl
  keep_file w' (partial m e h) p q old = refl
  keep_file w' (whole m b e h f) p q old = refl
