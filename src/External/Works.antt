-- ===== src/External/Works.antt =====
-- What the code relies on: the documented behaviour of the database, the file system and
-- `serde_json` where none of them reports an error.
use s3xc.Prelude.{
  ℕ, ◌≤◌, ◌≡◌, ◌⊎◌, Bool, true, false, Option, none, some, Bytes, Text, All, length, take, drop,
  text_eq, if◌then◌else◌,
}
use s3xc.Io.{Result, ok, bind_result, attempt, Io, ◌>>=◌}
use s3xc.Cache.Metadata.Types.{TableName, objects_table, chunks_table}
use s3xc.External.{Redb, FileSystem, Serde, Env}
use s3xc.External.Path.{FilePath, parent, path_eq}

abbrev pub same_table : TableName → TableName → Bool
same_table objects_table objects_table = true
same_table chunks_table chunks_table = true
same_table _ _ = false

-- A read transaction on one key, and write transactions that insert and remove one key.
abbrev pub read_txn : (r : Redb) → TableName → Text → r.Db → Result (Option Bytes)
read_txn r t k db =
    bind_result (r.begin_read db) λ tx. bind_result (r.open_read tx t) λ tb. r.get tb k

abbrev pub insert_txn : (r : Redb) → TableName → Text → Bytes → r.Db → Result r.Db
insert_txn r t k v db = bind_result (r.begin_write db) λ tx.
    bind_result (r.open_write tx t)
      λ tb. bind_result (r.insert tb k v) λ tb'. r.commit (r.close tb')

abbrev pub remove_txn : (r : Redb) → TableName → Text → r.Db → Result r.Db
remove_txn r t k db = bind_result (r.begin_write db) λ tx.
    bind_result (r.open_write tx t) λ tb. bind_result (r.remove tb k) λ tb'. r.commit (r.close tb')

-- A database is a map from keys to values for each table: a transaction reads what is there, and a
-- committed one has changed its key alone.
pub record RedbWorks (r : Redb) : Type 0 where
  pub content : r.Db → TableName → Text → Option Bytes
  pub read_lem : (t : TableName) (k : Text) (db : r.Db) → read_txn r t k db ≡ ok (content db t k)
  pub insert_lem :
      (t : TableName) (k : Text) (v : Bytes) (db : r.Db)
      → (db' : r.Db) × (insert_txn r t k v db ≡ ok db')
        × ((u : TableName) (j : Text)
            → content db' u j ≡ (
                if same_table t u
                then (if text_eq k j then some v else content db u j)
                else content db u j))
  pub remove_lem :
      (t : TableName) (k : Text) (db : r.Db)
      → (db' : r.Db) × (remove_txn r t k db ≡ ok db')
        × ((u : TableName) (j : Text)
            → content db' u j ≡ (
                if same_table t u
                then (if text_eq k j then none else content db u j)
                else content db u j))

-- A value is read back from its JSON, and the decoding of any bytes returns.
pub record SerdeWorks {A : Type 0} (s : Serde A) : Type 0 where
  pub round_trip : (a : A) → (b : Bytes) × (s.to_vec a ≡ ok b) × (s.from_slice b ≡ ok a)
  pub decode_returns : (b : Bytes) → (r : Result A) × (attempt (s.from_slice b) ≡ ok r)

-- A file created at a path, written and flushed.
abbrev pub write_new : (f : FileSystem) → FilePath → Bytes → Io f.Fs (Unit {0})
write_new f p b = f.create p >>= λ file. f.write_all file b >>= λ file'. f.flush file'

pub record FsWorks (f : FileSystem) : Type 0 where
  -- The content of the file at a path, the directories, and the bytes of an open file: all, and
  -- those from its position on.
  pub content : f.Fs → FilePath → Option Bytes
  pub is_dir : f.Fs → FilePath → Bool
  pub whole : f.File → Bytes
  pub rest : f.File → Bytes
  pub present :
      (fs : f.Fs) (p : FilePath) (b : Bytes) → content fs p ≡ some b → f.exists fs p ≡ true
  pub absent : (fs : f.Fs) (p : FilePath) → f.exists fs p ≡ false → content fs p ≡ none
  pub mkdir_ok : (p : FilePath) (fs : f.Fs) → (f.create_dir_all p fs).0 ≡ ok tt
  pub mkdir_is_dir : (p : FilePath) (fs : f.Fs) → is_dir (f.create_dir_all p fs).1 p ≡ true
  pub mkdir_content :
      (p : FilePath) (fs : f.Fs) (q : FilePath) → content (f.create_dir_all p fs).1 q ≡ content fs q
  pub open_lem :
      (fs : f.Fs) (p : FilePath) (b : Bytes)
      → content fs p ≡ some b
      → (h : f.File) × (f.open_file fs p ≡ ok h) × (whole h ≡ b) × (rest h ≡ b)
  pub seek_lem :
      (h : f.File) (n : ℕ) → (h' : f.File) × (f.seek h n ≡ ok h') × (rest h' ≡ drop n (whole h))
  pub read_lem :
      (h : f.File) (n : ℕ) → n ≤ length (rest h) → f.read_exact h n ≡ ok (take n (rest h))
  -- A file can be created where its directory is there.
  pub write_ok :
      (p d : FilePath) (b : Bytes) (fs : f.Fs)
      → parent p ≡ some d
      → is_dir fs d ≡ true
      → (write_new f p b fs).0 ≡ ok tt
  pub write_content :
      (p d : FilePath) (b : Bytes) (fs : f.Fs) (q : FilePath)
      → parent p ≡ some d
      → is_dir fs d ≡ true
      → content (write_new f p b fs).1 q ≡ (if path_eq p q then some b else content fs q)
  -- Within a directory, a rename moves the content and replaces what was at the new path.
  pub rename_ok :
      (p q : FilePath) (b : Bytes) (fs : f.Fs)
      → content fs p ≡ some b
      → parent p ≡ parent q
      → (f.rename p q fs).0 ≡ ok tt
  pub rename_content :
      (p q : FilePath) (b : Bytes) (fs : f.Fs) (r : FilePath)
      → content fs p ≡ some b
      → parent p ≡ parent q
      → content (f.rename p q fs).1 r
        ≡ (if path_eq q r then some b else if path_eq p r then none else content fs r)
  pub copy_ok :
      (p q d : FilePath) (b : Bytes) (fs : f.Fs)
      → content fs p ≡ some b
      → parent q ≡ some d
      → is_dir fs d ≡ true
      → (f.copy p q fs).0 ≡ ok tt
  pub copy_content :
      (p q d : FilePath) (b : Bytes) (fs : f.Fs) (r : FilePath)
      → content fs p ≡ some b
      → parent q ≡ some d
      → is_dir fs d ≡ true
      → content (f.copy p q fs).1 r ≡ (if path_eq q r then some b else content fs r)
  -- Removing a file leaves no file at its path; it returns, with an error or not.
  pub remove_returns :
      (p : FilePath) (fs : f.Fs) → (r : Result (Unit {0})) × (attempt (f.remove_file p fs).0 ≡ ok r)
  pub remove_content :
      (p : FilePath) (fs : f.Fs) (q : FilePath)
      → content (f.remove_file p fs).1 q ≡ (if path_eq p q then none else content fs q)

abbrev pub IsHex : ℕ → Type 0
IsHex c = ((b'0' ≤ c) × (c ≤ b'9')) ⊎ ((b'a' ≤ c) × (c ≤ b'f'))

-- The digest in lower-case hexadecimal digits.
pub record DigestWorks (sha256_hex : Bytes → Text) : Type 0 where
  pub hex : (b : Bytes) → All IsHex (sha256_hex b)
  pub length_lem : (b : Bytes) → length (sha256_hex b) ≡ 64

pub record EnvWorks (env : Env) : Type 0 where
  pub redb : RedbWorks env.redb
  pub fs : FsWorks env.fs
  pub object_json : SerdeWorks env.object_json
  pub chunk_json : SerdeWorks env.chunk_json
  pub digest : DigestWorks env.sha256_hex
