-- ===== src/Tests/Disk.antt =====
-- A disk in memory, where every directory is there.
use s3xc.Prelude.{
  ◌≡◌, refl, Bool, true, false, Option, none, some, [], ◌++◌, Bytes, take, drop, length, leb, arith,
  if◌then◌else◌,
}
use s3xc.Io.{Result, ok, err, error}
use s3xc.External.{FileSystem}
use s3xc.External.Path.{FilePath, path_eq}
use s3xc.External.Works.{FsWorks}

pub record OpenFile : Type 0 where
  pub path : FilePath
  pub whole : Bytes
  pub rest : Bytes

abbrev pub Disk : Type 0
Disk = FilePath → Option Bytes

abbrev set : FilePath → Option Bytes → Disk → Disk
set p b disk q = if path_eq p q then b else disk q

abbrev opened : FilePath → Option Bytes → Result OpenFile
opened p none = err (error [])
opened p (some b) = ok (record { path = p; whole = b; rest = b })

abbrev moved : FilePath → FilePath → Option Bytes → Disk → Result (Unit {0}) × Disk
moved p q none disk = (err (error []), disk)
moved p q (some b) disk =
    (ok tt, λ r. if path_eq q r then some b else if path_eq p r then none else disk r)

abbrev copied : FilePath → Option Bytes → Disk → Result (Unit {0}) × Disk
copied q none disk = (err (error []), disk)
copied q (some b) disk = (ok tt, set q (some b) disk)

abbrev is_there : Option Bytes → Bool
is_there none = false
is_there (some b) = true

abbrev pub fs : FileSystem
fs = record {
  Fs = Disk;
  File = OpenFile;
  exists = λ disk p. is_there (disk p);
  create_dir_all = λ p disk. (ok tt, disk);
  open_file = λ disk p. opened p (disk p);
  seek = λ f n. ok (record f { rest = drop n f.whole });
  read_exact = λ f n. if leb n (length f.rest) then ok (take n f.rest) else err (error []);
  create = λ p disk. (ok (record { path = p; whole = []; rest = [] }), set p (some []) disk);
  write_all =
      λ f b disk. (ok (record f { whole = f.whole ++ b }), set f.path (some (f.whole ++ b)) disk);
  flush = λ f disk. (ok tt, disk);
  rename = λ p q disk. moved p q (disk p) disk;
  copy = λ p q disk. copied q (disk p) disk;
  remove_file = λ p disk. (ok tt, set p none disk);
}

pub there : (disk : Disk) (p : FilePath) (b : Bytes) → disk p ≡ some b → is_there (disk p) ≡ true
there disk p b e = rw e refl

pub absent : (b : Option Bytes) → is_there b ≡ false → b ≡ none
absent none e = refl
absent (some b) e = cc

unfoldable pub fs_works : FsWorks fs
fs_works = record {
  content = λ disk p. disk p;
  is_dir = λ disk p. true;
  whole = λ f. f.whole;
  rest = λ f. f.rest;
  present = λ disk p b e. there disk p b e;
  absent = λ disk p e. absent (disk p) e;
  mkdir_ok = λ p disk. refl;
  mkdir_is_dir = λ p disk. refl;
  mkdir_content = λ p disk q. refl;
  open_lem = λ disk p b e. (record { path = p; whole = b; rest = b }, rw e refl, refl, refl);
  seek_lem = λ f n. (record f { rest = drop n f.whole }, refl, refl);
  read_lem = λ f n h. ground arith;
  write_ok = λ p d b disk e h. refl;
  write_content = λ p d b disk q e h. ground arith;
  rename_ok = λ p q b disk e h. rw e refl;
  rename_content = λ p q b disk r e h. rw e refl;
  copy_ok = λ p q d b disk e h k. rw e refl;
  copy_content = λ p q d b disk r e h k. rw e refl;
  remove_returns = λ p disk. (ok tt, refl);
  remove_content = λ p disk q. refl;
}
