-- ===== src/Cache/Metadata/Laws.antt =====
-- The methods of `MetadataDb` against two maps, from a key to what is decoded under it.
use s3xc.Prelude.{
  ℕ, ◌≡◌, refl, Option, none, some, Bytes, Text, text_eq, inl, inr, Option-cases, arith,
  if◌then◌else◌,
}
use s3xc.Io.{Result, ok, err, error, panic, diverges, bind_result, attempt}
use s3xc.External.{Redb, Env}
use s3xc.External.Works.{EnvWorks, read_txn, insert_txn, remove_txn}
use s3xc.Cache.Keys.{chunk_key}
use s3xc.Cache.Metadata.{
  deserialize, settle, get_object, put_object, delete_object, get_chunk, put_chunk, delete_chunk,
}
use s3xc.Cache.Metadata.Types.{
  ObjectMetadata, ChunkMetadata, TableName, objects_table, chunks_table,
}

settle_ok :
    {Db : Type 0} (txn : Db → Result Db) (db db' : Db)
    → txn db ≡ ok db'
    → settle txn db ≡ (ok tt, db')
settle_ok txn db db' e = rw (e, settle)

bind_assoc :
    {A B C : Type 0} (m : Result A) (f : A → Result B) (g : B → Result C)
    → bind_result (bind_result m f) g ≡ bind_result m (λ a. bind_result (f a) g)
bind_assoc (ok a) f g = refl
bind_assoc (err e) f g = refl

attempt_bind :
    {A : Type 0} (m r : Result A)
    → attempt m ≡ ok r
    → (q : Result (Option A)) × (attempt (bind_result m (λ a. ok (some a))) ≡ ok q)
attempt_bind (ok a) r e = (ok (some a), refl)
attempt_bind (err (error t)) r e = (err (error t), refl)
attempt_bind (err panic) r e = cc
attempt_bind (err diverges) r e = cc

-- A read followed by the decoding is one read transaction, decoded.
read_then :
    {A : Type 0} (r : Redb) (t : TableName) (k : Text) (db : r.Db) (g : Option Bytes → Result A)
    → bind_result
        (r.begin_read db)
        (λ tx. bind_result (r.open_read tx t) (λ tb. bind_result (r.get tb k) g))
      ≡ bind_result (read_txn r t k db) g
read_then r t k db g = simp bind_assoc

module _ (env : Env) (works : EnvWorks env) where
  open works.redb use {content, read_lem, insert_lem, remove_lem}

  -- What the tables hold under a key: nothing, a value, or bytes that are no JSON of it.
  abbrev pub objects : env.redb.Db → Text → Result (Option ObjectMetadata)
  objects db k = deserialize env.object_json (content db objects_table k)

  abbrev pub chunks : env.redb.Db → Text → Result (Option ChunkMetadata)
  chunks db k = deserialize env.chunk_json (content db chunks_table k)

  -- How a database is changed at one key of a table, the other table left as it is.
  pub record ObjectAt (k : Text) (v : Option ObjectMetadata) (db : env.redb.Db)
      (r : Result (Unit {0}) × env.redb.Db) : Type 0 where
    pub returns : r.0 ≡ ok tt
    pub objects_lem : (j : Text) → objects r.1 j ≡ (if text_eq k j then ok v else objects db j)
    pub chunks_lem : (j : Text) → chunks r.1 j ≡ chunks db j

  pub record ChunkAt (k : Text) (v : Option ChunkMetadata) (db : env.redb.Db)
      (r : Result (Unit {0}) × env.redb.Db) : Type 0 where
    pub returns : r.0 ≡ ok tt
    pub chunks_lem : (j : Text) → chunks r.1 j ≡ (if text_eq k j then ok v else chunks db j)
    pub objects_lem : (j : Text) → objects r.1 j ≡ objects db j

  pub get_object-objects : (k : Text) (db : env.redb.Db) → get_object env k db ≡ (objects db k, db)
  unfolding get_object
  get_object-objects k db =
      simp (read_then env.redb objects_table k db (deserialize env.object_json), read_lem)

  pub get_chunk-chunks :
      (k : Text) (i : ℕ) (db : env.redb.Db) → get_chunk env k i db ≡ (chunks db (chunk_key k i), db)
  unfolding get_chunk
  get_chunk-chunks k i db =
      simp
        (read_then env.redb chunks_table (chunk_key k i) db (deserialize env.chunk_json), read_lem)

  -- The metadata that is put is what is read back under its key, the metadata of all other keys and
  -- all chunks stay as they are, and no error is returned.
  pub put_object-ObjectAt :
      (k : Text) (m : ObjectMetadata) (db : env.redb.Db)
      → ObjectAt k (some m) db (put_object env k m db)
  unfolding put_object
  put_object-ObjectAt k m db =
      let (bytes, to, from) = works.object_json.round_trip m in
      let (db', e, f) = insert_lem objects_table k bytes db in
      let done : put_object env k m db ≡ (ok tt, db') =
        simp to (settle_ok (insert_txn env.redb objects_table k bytes) db db' e) in
      rw done (record {
        returns = refl;
        objects_lem = λ j. ground (arith, f objects_table j, from);
        chunks_lem = λ j. ground (arith, f chunks_table j);
      })

  pub delete_object-ObjectAt :
      (k : Text) (db : env.redb.Db) → ObjectAt k none db (delete_object env k db)
  unfolding delete_object
  delete_object-ObjectAt k db =
      let (db', e, f) = remove_lem objects_table k db in
      let done : delete_object env k db ≡ (ok tt, db') =
        settle_ok (remove_txn env.redb objects_table k) db db' e in
      rw done (record {
        returns = refl;
        objects_lem = λ j. ground (arith, f objects_table j);
        chunks_lem = λ j. ground (arith, f chunks_table j);
      })

  -- The entry that is put is what is read back for its chunk, the entries of all other chunks and all
  -- objects stay as they are, and no error is returned.
  pub put_chunk-ChunkAt :
      (k : Text) (i : ℕ) (m : ChunkMetadata) (db : env.redb.Db)
      → ChunkAt (chunk_key k i) (some m) db (put_chunk env k i m db)
  unfolding put_chunk
  put_chunk-ChunkAt k i m db =
      let (bytes, to, from) = works.chunk_json.round_trip m in
      let (db', e, f) = insert_lem chunks_table (chunk_key k i) bytes db in
      let done : put_chunk env k i m db ≡ (ok tt, db') =
        simp to (settle_ok (insert_txn env.redb chunks_table (chunk_key k i) bytes) db db' e) in
      rw done (record {
        returns = refl;
        chunks_lem = λ j. ground (arith, f chunks_table j, from);
        objects_lem = λ j. ground (arith, f objects_table j);
      })

  -- A chunk that is deleted has no entry, whether it had one or not; all other entries and all objects
  -- stay as they are, and no error is returned.
  pub delete_chunk-ChunkAt :
      (k : Text) (i : ℕ) (db : env.redb.Db)
      → ChunkAt (chunk_key k i) none db (delete_chunk env k i db)
  unfolding delete_chunk
  delete_chunk-ChunkAt k i db =
      let (db', e, f) = remove_lem chunks_table (chunk_key k i) db in
      let done : delete_chunk env k i db ≡ (ok tt, db') =
        settle_ok (remove_txn env.redb chunks_table (chunk_key k i)) db db' e in
      rw done (record {
        returns = refl;
        chunks_lem = λ j. ground (arith, f chunks_table j);
        objects_lem = λ j. ground (arith, f objects_table j);
      })

  -- A read returns, with an error or not.
  pub chunks_returns :
      (db : env.redb.Db) (k : Text)
      → (r : Result (Option ChunkMetadata)) × (attempt (chunks db k) ≡ ok r)
  chunks_returns db k = elim (Option-cases (content db chunks_table k)) [
    | inl gone ↦ (ok none, rw gone)
    | inr (b, there) ↦ decoded b there
  ]
    where
      decoded :
          (b : Bytes)
          → content db chunks_table k ≡ some b
          → (r : Result (Option ChunkMetadata)) × (attempt (chunks db k) ≡ ok r)
      decoded b there =
          let (r, e) = works.chunk_json.decode_returns b in
          rw there (attempt_bind (env.chunk_json.from_slice b) r e)
