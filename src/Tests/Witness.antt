-- ===== src/Tests/Witness.antt =====
-- The theorems on reading and writing through the cache, at concrete inputs.
use s3xc.Prelude.{
  ◌≡◌, refl, false, none, some, List, [], ◌∷◌, Bytes, codes, concat, map, slice, min, length, arith,
  All,
}
use s3xc.Io.{ok}
use s3xc.Cache.Keys.{object_key}
use s3xc.Cache.Drop.{drop_cache_for_object, get_object_metadata}
use s3xc.Cache.Drop.Laws.{Drops, drop_cache-Drops}
use s3xc.Cache.Read.{ReadFuture, chunk, read_plan, run_stream}
use s3xc.Cache.Read.Plan.{Fits, part_bytes, read_plan-covers}
use s3xc.Cache.Read.Serve.{IsCoherent, run_stream-Serves}
use s3xc.Cache.Read.Fresh.{IsFresh, get_object_metadata-IsFresh}
use s3xc.Cache.Read.Slice.{read_bytes, read_bytes-slice}
use s3xc.Cache.Write.{Upload, start, process_body, write_last, write_and_cache_object}
use s3xc.Cache.Write.Cut.{IsCut, body-IsCut}
use s3xc.Cache.Write.Put.{
  Tracked, unknown, IsPut, write_and_cache-IsPut, read_bytes-write_and_cache,
}
use s3xc.Tests.Tables.{redb_works}
use s3xc.Tests.Store.{upstream_reads}
use s3xc.Tests.World.{env, works, hello, empty, warm, stored, coordinator, bucket, key}
use s3xc.Tests.Facts.{warm_known, empty-Knows, hello_stored}

empty-Tracked : Tracked env works coordinator bucket key empty
unfolding works redb_works
empty-Tracked = unknown refl (λ i m. cc)

empty-IsCoherent : IsCoherent env works upstream_reads coordinator bucket key stored empty
unfolding works redb_works upstream_reads
empty-IsCoherent = record { chunk_lem = λ i m. cc; stored_lem = refl }

read_bytes-slice_example :
    (pieces : List Bytes) × ((read_bytes env works upstream_reads coordinator bucket key stored 3 9
        empty).0
      ≡ ok pieces)
    × (concat pieces ≡ slice 3 (min 9 (length hello)) hello)
    × IsCoherent env works upstream_reads coordinator bucket key stored
        (read_bytes env works upstream_reads coordinator bucket key stored 3 9 empty).1
read_bytes-slice_example =
    read_bytes-slice env works upstream_reads coordinator bucket key stored empty 3 9 (omega arith)
      (omega arith) hello_stored empty-Knows

get_object_metadata-IsFresh_example :
    IsFresh env works upstream_reads coordinator bucket key stored
      (get_object_metadata env coordinator bucket key empty)
get_object_metadata-IsFresh_example =
    get_object_metadata-IsFresh env works upstream_reads coordinator bucket key stored empty
      (omega arith) hello_stored empty-Knows

-- The bytes 3 to 9: the last of the first chunk, the second, the first of the third.
abbrev parts : List ReadFuture
parts = chunk 0 3 1 ∷ chunk 1 0 4 ∷ chunk 2 0 1 ∷ []

parts-Fits : All (Fits 4 (length hello)) parts
parts-Fits = (
  (omega arith, omega arith, omega arith),
  ((omega arith, omega arith, omega arith), ((omega arith, omega arith, omega arith), tt)),
)

run_stream-Serves_example :
    ((run_stream env coordinator bucket key parts empty).0 ≡ ok (map (part_bytes 4 hello) parts))
    × IsCoherent env works upstream_reads coordinator bucket key stored
        (run_stream env coordinator bucket key parts empty).1
run_stream-Serves_example =
    run_stream-Serves env works upstream_reads coordinator bucket key stored parts empty
      (omega arith) parts-Fits empty-IsCoherent

read_plan-covers_example :
    (futs : List ReadFuture) × (read_plan 4 (length hello) 3 9 ≡ ok futs)
    × All (Fits 4 (length hello)) futs
    × (concat (map (part_bytes 4 hello) futs) ≡ slice 3 (min 9 (length hello)) hello)
read_plan-covers_example = read_plan-covers 4 hello 3 9 (omega arith) (omega arith) (omega arith)

drop_cache-Drops_example :
    Drops env works coordinator
      (object_key bucket key)
      11
      warm
      (drop_cache_for_object env coordinator bucket key warm)
drop_cache-Drops_example =
    drop_cache-Drops env works coordinator bucket key stored.meta warm (omega arith) warm_known

-- The body comes in two pieces, cut elsewhere than the chunks.
abbrev pieces : List Bytes
pieces = codes "hello " ∷ codes "world" ∷ []

body-IsCut_example :
    (u : Upload) × ((process_body env coordinator
        (object_key bucket key)
        (λ n. false)
        (map ok pieces)
        start
        empty).0
      ≡ ok u)
    × IsCut env works coordinator
        (object_key bucket key)
        empty
        (omega arith)
        (concat pieces)
        (map ok pieces)
        (write_last env coordinator
          (object_key bucket key)
          u
          (process_body env coordinator
            (object_key bucket key)
            (λ n. false)
            (map ok pieces)
            start
            empty).1)
body-IsCut_example =
    body-IsCut env works coordinator (object_key bucket key) empty (omega arith) (λ n. false) pieces
      (λ n. refl)

write_and_cache-IsPut_example :
    IsPut env works coordinator bucket key hello none
      (codes "tag")
      (some hello)
      (write_and_cache_object env coordinator bucket key (λ n. false) (map ok pieces) 11 none empty)
write_and_cache-IsPut_example =
    write_and_cache-IsPut env works coordinator bucket key (λ n. false) pieces none (codes "tag")
      (some hello) empty (omega arith) (λ n. refl) empty-Tracked refl

read_bytes-write_and_cache_example :
    (read : List Bytes) × ((read_bytes env works upstream_reads coordinator bucket key stored 2 7
        (write_and_cache_object env coordinator bucket key
          (λ n. false)
          (map ok pieces)
          11
          none
          empty).1).0
      ≡ ok read)
    × (concat read ≡ slice 2 (min 7 11) hello)
read_bytes-write_and_cache_example =
    read_bytes-write_and_cache env works coordinator bucket key upstream_reads (λ n. false) pieces
      none (codes "tag") (some hello) empty stored 2 7 (omega arith) (omega arith) (λ n. refl)
      empty-Tracked refl hello_stored refl
