-- ===== src/Tests/Tables.antt =====
-- A database in memory: two association lists.
use s3xc.Prelude.{
  ◌≡◌, refl, ap, Option, none, some, List, [], ◌∷◌, Bytes, Text, text_eq, text_eq_iff, arith,
  if◌then◌else◌,
}
use s3xc.Io.{Result, ok}
use s3xc.External.{Redb}
use s3xc.External.Works.{RedbWorks, same_table}
use s3xc.Cache.Metadata.Types.{TableName, objects_table, chunks_table}

abbrev Rows : Type 0
Rows = List (Text × Bytes)

abbrev lookup : Rows → Text → Option Bytes
lookup [] k = none
lookup ((j, v) ∷ rows) k = let rest = lookup rows k in if text_eq j k then some v else rest

abbrev delete : Rows → Text → Rows
delete [] k = []
delete ((j, v) ∷ rows) k = let rest = delete rows k in if text_eq k j then rest else (j, v) ∷ rest

lookup-delete :
    (rows : Rows) (k j : Text)
    → lookup (delete rows k) j ≡ (if text_eq k j then none else lookup rows j)
lookup-delete [] k j = ground arith
lookup-delete ((i, v) ∷ rows) k j = ground (
  arith,
  lookup-delete rows k j,
  text_eq_iff k i,
  text_eq_iff i j,
  text_eq_iff k j,
  ap (text_eq k) {x = i} {y = j},
)

pub record Tables : Type 0 where
  pub objects : Rows
  pub chunks : Rows

abbrev rows_of : Tables → TableName → Rows
rows_of db objects_table = db.objects
rows_of db chunks_table = db.chunks

abbrev with_rows : Tables → TableName → Rows → Tables
with_rows db objects_table rows = record db { objects = rows }
with_rows db chunks_table rows = record db { chunks = rows }

abbrev all_rows : Rows → List (Result (Text × Bytes))
all_rows [] = []
all_rows (r ∷ rows) = ok r ∷ all_rows rows

abbrev pub redb : Redb
redb = record {
  Db = Tables;
  create_database = λ p. ok (record { objects = []; chunks = [] });
  ReadTxn = Tables;
  ReadTable = Rows;
  WriteTxn = Tables;
  WriteTable = TableName × Tables;
  begin_read = λ db. ok db;
  open_read = λ db t. ok (rows_of db t);
  get = λ rows k. ok (lookup rows k);
  iter = λ rows. ok (all_rows rows);
  begin_write = λ db. ok db;
  open_write = λ db t. ok (t, db);
  insert = λ tb k v. ok (tb.0, with_rows tb.1 tb.0 ((k, v) ∷ delete (rows_of tb.1 tb.0) k));
  remove = λ tb k. ok (tb.0, with_rows tb.1 tb.0 (delete (rows_of tb.1 tb.0) k));
  close = λ tb. tb.1;
  commit = λ db. ok db;
}

with_rows-content :
    (db : Tables) (t : TableName) (rows : Rows) (u : TableName) (j : Text)
    → lookup (rows_of (with_rows db t rows) u) j
      ≡ (if same_table t u then lookup rows j else lookup (rows_of db u) j)
with_rows-content db objects_table rows objects_table j = refl
with_rows-content db objects_table rows chunks_table j = refl
with_rows-content db chunks_table rows objects_table j = refl
with_rows-content db chunks_table rows chunks_table j = refl

pub inserted :
    (db : Tables) (t : TableName) (k : Text) (v : Bytes) (u : TableName) (j : Text)
    → lookup (rows_of (with_rows db t ((k, v) ∷ delete (rows_of db t) k)) u) j ≡ (
        if same_table t u
        then (if text_eq k j then some v else lookup (rows_of db u) j)
        else lookup (rows_of db u) j)
inserted db objects_table k v objects_table j = ground (arith, lookup-delete db.objects k j)
inserted db objects_table k v chunks_table j = refl
inserted db chunks_table k v objects_table j = refl
inserted db chunks_table k v chunks_table j = ground (arith, lookup-delete db.chunks k j)

pub removed :
    (db : Tables) (t : TableName) (k : Text) (u : TableName) (j : Text)
    → lookup (rows_of (with_rows db t (delete (rows_of db t) k)) u) j ≡ (
        if same_table t u
        then (if text_eq k j then none else lookup (rows_of db u) j)
        else lookup (rows_of db u) j)
removed db objects_table k objects_table j = lookup-delete db.objects k j
removed db objects_table k chunks_table j = refl
removed db chunks_table k objects_table j = refl
removed db chunks_table k chunks_table j = lookup-delete db.chunks k j

unfoldable pub redb_works : RedbWorks redb
redb_works = record {
  content = λ db t k. lookup (rows_of db t) k;
  read_lem = λ t k db. refl;
  insert_lem = λ t k v db.
      (with_rows db t ((k, v) ∷ delete (rows_of db t) k), refl, λ u j. inserted db t k v u j);
  remove_lem =
      λ t k db. (with_rows db t (delete (rows_of db t) k), refl, λ u j. removed db t k u j);
}
