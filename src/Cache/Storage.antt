-- ===== src/Cache/Storage.antt =====
-- `Storage` of `src/cache/storage.rs`: chunk files on disk.
pub mod Paths
pub mod Laws
use s3xc.Prelude.{ℕ, none, some, ◌∷◌, ◌++◌, Bytes, Text, codes, take, drop, ltb, if◌then◌else◌}
use s3xc.Io.{Result, ok, Io, pure, lift, ◌>>=◌, ◌>>◌}
use s3xc.Str.Decimal.{print}
use s3xc.External.{Env}
use s3xc.External.Path.{FilePath, join, parent, with_extension}

pub record Storage : Type 0 where
  pub cache_dir : FilePath

module _ (env : Env) (storage : Storage) where
  open env use {fs, sha256_hex}
  open env.fs use {
    Fs, File, exists, create_dir_all, open_file, seek, read_exact, create, write_all, flush, rename,
    remove_file,
  }

  -- cache_dir/data/{sha256[0..2]}/{sha256[2..4]}/{sha256}_{chunk_idx}
  unfoldable pub chunk_path : Text → ℕ → FilePath
  chunk_path key chunk_idx =
      let hash_hex = sha256_hex key in
      join
        (join (join (join storage.cache_dir (codes "data")) (take 2 hash_hex))
          (take 2 (drop 2 hash_hex)))
        (hash_hex ++ b'_' ∷ print chunk_idx)

  unfoldable pub ensure_parent_dir : FilePath → Io Fs (Unit {0})
  ensure_parent_dir path = elim (parent path) [ none ↦ pure tt | some dir ↦ create_dir_all dir ]

  -- `file.seek(SeekFrom::Start(offset))`, where there is an offset.
  seek_to : ℕ → File → Result File
  seek_to offset file = if ltb 0 offset then seek file offset else ok file

  unfoldable pub read_chunk_range : Text → ℕ → ℕ → ℕ → Io Fs Bytes
  unfolding seek_to
  read_chunk_range key chunk_idx offset length disk =
      (do
        file ← lift (open_file disk (chunk_path key chunk_idx))
        file' ← lift (seek_to offset file)
        lift (read_exact file' length))
        disk

  -- The bytes go to a temporary file beside the target, which a rename puts in place.
  unfoldable pub write_chunk : Text → ℕ → Bytes → Io Fs (Unit {0})
  write_chunk key chunk_idx bytes =
      let target_path = chunk_path key chunk_idx in
      let temp_path = with_extension (codes "tmp") target_path in
      do
        ensure_parent_dir target_path
        (do file ← create temp_path; file' ← write_all file bytes; flush file')
        rename temp_path target_path

  unfoldable pub delete_chunk : Text → ℕ → Io Fs (Unit {0})
  delete_chunk key chunk_idx disk =
      let path = chunk_path key chunk_idx in
      if exists disk path then remove_file path disk else (ok tt, disk)

  -- Both branches return with nothing done.
  unfoldable pub cleanup_temp_files : Io Fs (Unit {0})
  cleanup_temp_files disk =
      if exists disk (join storage.cache_dir (codes "data")) then (ok tt, disk) else (ok tt, disk)
