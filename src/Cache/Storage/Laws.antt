-- ===== src/Cache/Storage/Laws.antt =====
-- The methods of `Storage` against a map from chunks to their bytes.
use s3xc.Prelude.{
  ℕ, ◌+◌, ◌≤◌, ◌≡◌, ◌≢◌, refl, sym, ap, ◌∙◌, Bool, true, false, inl, inr, Option, none, some, Bytes,
  Text, length, take, drop, length-drop, arith, ltb, Bool-cases, if◌then◌else◌,
}
use s3xc.Io.{Result, ok, attempt, bind_ok}
use s3xc.External.{Env}
use s3xc.External.Path.{path_eq, path_eq_iff}
use s3xc.External.Works.{EnvWorks, write_new}
use s3xc.Cache.Storage.{
  Storage, chunk_path, ensure_parent_dir, seek_to, read_chunk_range, write_chunk, delete_chunk,
}
use s3xc.Cache.Storage.Paths.{
  chunk_dir, temp_path, parent-chunk_path, parent-temp_path, temp_path-eq, chunk_path_inj,
}

module _ (env : Env) (works : EnvWorks env) (storage : Storage) where
  open works.fs use {content, is_dir, whole, rest}

  -- The bytes in the file of a chunk.
  abbrev pub chunk_file : env.fs.Fs → Text → ℕ → Option Bytes
  chunk_file disk k i = content disk (chunk_path env storage k i)

  -- Whether two chunks share a file.
  abbrev pub same_file : Text → ℕ → Text → ℕ → Bool
  same_file k i j n = path_eq (chunk_path env storage k i) (chunk_path env storage j n)

  -- A range inside a chunk whose file is there is read from that file, and the disk stays as it
  -- is.
  pub read_chunk_range_lem :
      (k : Text) (i offset n : ℕ) (b : Bytes) (disk : env.fs.Fs)
      → chunk_file disk k i ≡ some b
      → offset + n ≤ length b
      → read_chunk_range env storage k i offset n disk ≡ (ok (take n (drop offset b)), disk)
  unfolding read_chunk_range seek_to
  read_chunk_range_lem k i offset n b disk e fits =
      let (h, opens, all, from) = works.fs.open_lem disk (chunk_path env storage k i) b e in
      let (h', seeks, from') = works.fs.seek_lem h offset in
      elim (Bool-cases (ltb 0 offset)) [
        | inl some_offset ↦ ground (
          arith,
          opens,
          seeks,
          some_offset,
          works.fs.read_lem h' n,
          length-drop offset b,
          from',
          all,
        )
        | inr no_offset ↦ ground (arith, opens, no_offset, works.fs.read_lem h n, from)
      ]

  -- The disk when the temporary file is written.
  temp_written : Text → ℕ → Bytes → env.fs.Fs → env.fs.Fs
  temp_written k i b disk =
      (write_new env.fs (temp_path env works.digest storage k i) b
        (env.fs.create_dir_all (chunk_dir env works.digest storage k) disk).1).1

  ensure_parent_dir-chunk_path :
      (k : Text) (i : ℕ)
      → ensure_parent_dir env storage (chunk_path env storage k i)
        ≡ env.fs.create_dir_all (chunk_dir env works.digest storage k)
  unfolding ensure_parent_dir
  ensure_parent_dir-chunk_path k i = ground (arith, parent-chunk_path env works.digest storage k i)

  write_chunk-rename :
      (k : Text) (i : ℕ) (b : Bytes) (disk : env.fs.Fs)
      → write_chunk env storage k i b disk
        ≡ env.fs.rename
            (temp_path env works.digest storage k i)
            (chunk_path env storage k i)
            (temp_written k i b disk)
  unfolding write_chunk temp_written
  write_chunk-rename k i b disk =
      let d = chunk_dir env works.digest storage k in
      let made = env.fs.create_dir_all d disk in
      rw (ensure_parent_dir-chunk_path k i, works.fs.mkdir_ok d disk)
        (bind_ok (write_new env.fs (temp_path env works.digest storage k i) b) _ made.1 tt (
          works.fs.write_ok _ d b made.1 (parent-temp_path env works.digest storage k i)
            (works.fs.mkdir_is_dir d disk)))

  -- A chunk that is written holds its bytes, and no file of another chunk is touched.
  pub write_chunk_lem :
      (k : Text) (i : ℕ) (b : Bytes) (disk : env.fs.Fs)
      → ((write_chunk env storage k i b disk).0 ≡ ok tt)
        × ((j : Text) (n : ℕ)
            → chunk_file (write_chunk env storage k i b disk).1 j n
              ≡ (if same_file k i j n then some b else chunk_file disk j n))
  unfolding temp_written
  write_chunk_lem k i b disk =
      let d = chunk_dir env works.digest storage k in
      let temp = temp_path env works.digest storage k i in
      let target = chunk_path env storage k i in
      let made = (env.fs.create_dir_all d disk).1 in
      let in_dir = parent-temp_path env works.digest storage k i in
      let beside = in_dir ∙ sym (parent-chunk_path env works.digest storage k i) in
      let is_made = works.fs.mkdir_is_dir d disk in
      let wrote =
        works.fs.write_content temp d b made temp in_dir is_made
        ∙ rw ((path_eq_iff temp temp).1 refl) in
      rw write_chunk-rename (
        works.fs.rename_ok temp target b _ wrote beside,
        λ j n. ground (
          arith,
          works.fs.rename_content temp target b (temp_written k i b disk)
              (chunk_path env storage j n) wrote beside,
          works.fs.write_content temp d b made (chunk_path env storage j n) in_dir is_made,
          works.fs.mkdir_content d disk (chunk_path env storage j n),
          temp_path-eq env works.digest storage k j i n,
        ),
      )

  pub delete_chunk_returns :
      (k : Text) (i : ℕ) (disk : env.fs.Fs)
      → (r : Result (Unit {0})) × (attempt (delete_chunk env storage k i disk).0 ≡ ok r)
  unfolding delete_chunk
  delete_chunk_returns k i disk =
      elim (Bool-cases (env.fs.exists disk (chunk_path env storage k i))) [
        | inl there ↦ rw there (works.fs.remove_returns _ disk)
        | inr gone ↦ rw gone (ok tt, refl)
      ]

  -- A chunk that is deleted has no file, and no file of another chunk is touched.
  pub delete_chunk-chunk_file :
      (k : Text) (i : ℕ) (disk : env.fs.Fs) (j : Text) (n : ℕ)
      → chunk_file (delete_chunk env storage k i disk).1 j n
        ≡ (if same_file k i j n then none else chunk_file disk j n)
  unfolding delete_chunk
  delete_chunk-chunk_file k i disk j n = ground (
    arith,
    works.fs.remove_content (chunk_path env storage k i) disk (chunk_path env storage j n),
    works.fs.absent disk (chunk_path env storage k i),
    path_eq_iff (chunk_path env storage k i) (chunk_path env storage j n),
    ap (content disk),
  )

  -- A file is that of its own chunk, and of no other of the same key.
  pub same_file_self : (k : Text) (i : ℕ) → same_file k i k i ≡ true
  same_file_self k i = (path_eq_iff _ _).1 refl

  pub same_file_ne : (k : Text) (i n : ℕ) → i ≢ n → same_file k i k n ≡ false
  same_file_ne k i n h = elim (Bool-cases (same_file k i k n)) [
    | inl same ↦
        absurd (h (chunk_path_inj env works.digest storage k k i n ((path_eq_iff _ _).0 same)).1)
    | inr other ↦ other
  ]
