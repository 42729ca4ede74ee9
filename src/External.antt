-- ===== src/External.antt =====
-- What the program calls and does not implement: the database `redb`, the file system behind
-- `tokio::fs`, `serde_json`, SHA-256, the clock, and the upstream store behind the methods of
-- `ProxyClient` (`src/proxy/mod.rs`). Each is a record of operations, an argument of the definitions
-- that use it.
pub mod Http
pub mod Url
pub mod Path
pub mod Works
pub mod Remote
use s3xc.Prelude.{ℕ, Bool, Option, List, Bytes, Text}
use s3xc.Io.{Result, Io}
use Path.{FilePath}
use s3xc.Cache.Metadata.Types.{ObjectMetadata, ChunkMetadata, TableName}

-- `redb`: transactions on a database of tables from texts to bytes. A transaction that is dropped
-- before its commit is rolled back; `close` ends the borrow of an open table.
pub record Redb : Type 1 where
  pub Db : Type 0
  pub create_database : FilePath → Result Db
  pub ReadTxn : Type 0
  pub ReadTable : Type 0
  pub WriteTxn : Type 0
  pub WriteTable : Type 0
  pub begin_read : Db → Result ReadTxn
  pub open_read : ReadTxn → TableName → Result ReadTable
  pub get : ReadTable → Text → Result (Option Bytes)
  pub iter : ReadTable → Result (List (Result (Text × Bytes)))
  pub begin_write : Db → Result WriteTxn
  pub open_write : WriteTxn → TableName → Result WriteTable
  pub insert : WriteTable → Text → Bytes → Result WriteTable
  pub remove : WriteTable → Text → Result WriteTable
  pub close : WriteTable → WriteTxn
  pub commit : WriteTxn → Result Db

-- `tokio::fs`. A `File` is an open file with its position.
pub record FileSystem : Type 1 where
  pub Fs : Type 0
  pub File : Type 0
  pub exists : Fs → FilePath → Bool
  pub create_dir_all : FilePath → Fs → Result (Unit {0}) × Fs
  pub open_file : Fs → FilePath → Result File
  pub seek : File → ℕ → Result File
  pub read_exact : File → ℕ → Result Bytes
  pub create : FilePath → Fs → Result File × Fs
  pub write_all : File → Bytes → Fs → Result File × Fs
  pub flush : File → Fs → Result (Unit {0}) × Fs
  pub rename : FilePath → FilePath → Fs → Result (Unit {0}) × Fs
  pub copy : FilePath → FilePath → Fs → Result (Unit {0}) × Fs
  pub remove_file : FilePath → Fs → Result (Unit {0}) × Fs

-- `serde_json::to_vec` and `from_slice` at one type.
pub record Serde (A : Type 0) : Type 0 where
  pub to_vec : A → Result Bytes
  pub from_slice : Bytes → Result A

-- The upstream store, by the methods of `ProxyClient`. A stream is the list of what it yields.
pub record Upstream : Type 1 where
  pub Remote : Type 0
  pub head_object : Text → Text → Remote → Result ObjectMetadata × Remote
  pub get_object_range_stream : Text → Text → Text → Remote → Result (List (Result Bytes)) × Remote
  pub put_object_stream :
      Text → Text → List (Result Bytes) → ℕ → Option Text → Remote → Result Text × Remote
  pub delete_object : Text → Text → Remote → Result (Unit {0}) × Remote
  pub copy_object : Text → Text → Text → Text → Remote → Result Text × Remote

-- `sha256_hex` is `hex::encode` of the SHA-256 digest; `clock n` is the n-th reading of the system
-- clock, in seconds after the epoch.
pub record Env : Type 1 where
  pub redb : Redb
  pub fs : FileSystem
  pub upstream : Upstream
  pub object_json : Serde ObjectMetadata
  pub chunk_json : Serde ChunkMetadata
  pub sha256_hex : Bytes → Text
  pub clock : ℕ → ℕ

-- What the operations change: the database, the disk, the upstream store, and the number of
-- readings of the clock.
-- One record, so that an operation on a part leaves the others as they are.
pub record World (env : Env) : Type 0 where
  pub db : env.redb.Db
  pub disk : env.fs.Fs
  pub remote : env.upstream.Remote
  pub readings : ℕ

module _ {env : Env} {A : Type 0} where
  -- An operation on the database, on the disk, on the upstream store.
  abbrev pub on_db : Io env.redb.Db A → Io (World env) A
  on_db m w = ((m w.db).0, record w { db = (m w.db).1 })

  abbrev pub on_disk : Io env.fs.Fs A → Io (World env) A
  on_disk m w = ((m w.disk).0, record w { disk = (m w.disk).1 })

  abbrev pub on_remote : Io env.upstream.Remote A → Io (World env) A
  on_remote m w = ((m w.remote).0, record w { remote = (m w.remote).1 })
