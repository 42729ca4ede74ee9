-- ===== src/Cache/Metadata.antt =====
-- `MetadataDb` of `src/cache/metadata.rs`: each method is one transaction on the database.
pub mod Types
pub mod Laws
use s3xc.Prelude.{ℕ, Option, none, some, List, [], ◌∷◌, ◌++◌, Bytes, Text}
use s3xc.Io.{Result, ok, err, bind_result, Io}
use s3xc.External.{Redb, Serde, Env}
use s3xc.External.Path.{FilePath}
use s3xc.Cache.Keys.{chunk_key}
use Types.{ObjectMetadata, ChunkMetadata, objects_table, chunks_table}

infixl 5 ◌>>=◌
abbrev ◌>>=◌ : {A B : Type 0} → Result A → (A → Result B) → Result B
m >>= f = bind_result m f

-- `Self::deserialize(guard.value())` where the key is there.
abbrev pub deserialize : {A : Type 0} → Serde A → Option Bytes → Result (Option A)
deserialize json none = ok none
deserialize json (some bytes) = do value ← json.from_slice bytes; ok (some value)

-- The database after a transaction: a transaction that fails is dropped, and changes nothing.
abbrev pub settle : {Db : Type 0} → (Db → Result Db) → Io Db (Unit {0})
settle txn db = elim (txn db) [ ok db' ↦ (ok tt, db') | err e ↦ (err e, db) ]

-- The loop of `list_all_chunks`, which stops at the first entry that is an error.
collect_chunks :
    Serde ChunkMetadata
    → List (Result (Text × Bytes))
    → List (Text × ChunkMetadata)
    → Result (List (Text × ChunkMetadata))
collect_chunks json [] chunks = ok chunks
collect_chunks json (item ∷ items) chunks = do
  entry ← item
  chunk_meta ← json.from_slice entry.1
  collect_chunks json items (chunks ++ (entry.0, chunk_meta) ∷ [])

module _ (env : Env) where
  open env use {redb, object_json, chunk_json}
  open env.redb use {
    Db, create_database, begin_read, open_read, get, iter, begin_write, open_write, insert, remove,
    close, commit,
  }

  -- `MetadataDb::new`: both tables are made by opening them.
  unfoldable pub new : FilePath → Result Db
  new path = do
    db ← create_database path
    write_txn ← begin_write db
    objects ← open_write write_txn objects_table
    chunks ← open_write (close objects) chunks_table
    commit (close chunks)

  unfoldable pub get_object : Text → Io Db (Option ObjectMetadata)
  get_object key db =
      let found : Result (Option ObjectMetadata) = do
        read_txn ← begin_read db
        table ← open_read read_txn objects_table
        guard ← get table key
        deserialize object_json guard
      in (found, db)

  unfoldable pub put_object : Text → ObjectMetadata → Io Db (Unit {0})
  put_object key meta = settle λ db. do
    write_txn ← begin_write db
    table ← open_write write_txn objects_table
    bytes ← object_json.to_vec meta
    table' ← insert table key bytes
    commit (close table')

  unfoldable pub delete_object : Text → Io Db (Unit {0})
  delete_object key = settle λ db. do
    write_txn ← begin_write db
    table ← open_write write_txn objects_table
    table' ← remove table key
    commit (close table')

  unfoldable pub get_chunk : Text → ℕ → Io Db (Option ChunkMetadata)
  get_chunk key chunk_idx db =
      let found : Result (Option ChunkMetadata) = do
        read_txn ← begin_read db
        table ← open_read read_txn chunks_table
        guard ← get table (chunk_key key chunk_idx)
        deserialize chunk_json guard
      in (found, db)

  unfoldable pub put_chunk : Text → ℕ → ChunkMetadata → Io Db (Unit {0})
  put_chunk key chunk_idx chunk = settle λ db. do
    write_txn ← begin_write db
    table ← open_write write_txn chunks_table
    bytes ← chunk_json.to_vec chunk
    table' ← insert table (chunk_key key chunk_idx) bytes
    commit (close table')

  unfoldable pub delete_chunk : Text → ℕ → Io Db (Unit {0})
  delete_chunk key chunk_idx = settle λ db. do
    write_txn ← begin_write db
    table ← open_write write_txn chunks_table
    table' ← remove table (chunk_key key chunk_idx)
    commit (close table')

  -- Every chunk of every key, by its database key.
  unfoldable pub list_all_chunks : Io Db (List (Text × ChunkMetadata))
  unfolding collect_chunks
  list_all_chunks db =
      let listed : Result (List (Text × ChunkMetadata)) = do
        read_txn ← begin_read db
        table ← open_read read_txn chunks_table
        items ← iter table
        collect_chunks chunk_json items []
      in (listed, db)
