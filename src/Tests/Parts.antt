-- ===== src/Tests/Parts.antt =====
-- The theorems on the cache's parts and on ranges, at concrete inputs.
use s3xc.Prelude.{
  [], ℕ, ◌+◌, ◌-◌, ◌*◌, ◌^◌, ◌≤◌, ◌≡◌, refl, none, some, ◌∷◌, ◌++◌, Text, codes, take, drop, min,
  ltb, arith, All, if◌then◌else◌,
}
use s3xc.Prelude.Int.{◌≤ℤ◌}
use mathlib.Core.List.{List, Perm}
use s3xc.Io.{ok}
use s3xc.Str.{starts_with, trim}
use s3xc.Str.Split.{split}
use s3xc.Str.Decimal.{parse_u64, print, u64_max}
use s3xc.Cache.Keys.{
  object_key, chunk_key, chunk_key_inj, split_chunk_key, split_chunk_key-chunk_key,
}
use s3xc.Cache.Storage
use s3xc.Cache.Storage.{chunk_path}
use s3xc.Cache.Storage.Laws.{chunk_file, same_file, read_chunk_range_lem, write_chunk_lem}
use s3xc.Cache.Policy.{Candidate, round_f64, target_of, check_and_evict}
use s3xc.Cache.Policy.Order.{Sorted}
use s3xc.Cache.Policy.Target.{target_of_lem}
use s3xc.Cache.Policy.Evict.{IsChunkKey, Evicts}
use s3xc.Cache.Policy.Check.{completed, check_and_evict-Evicts}
use s3xc.Server.Range.{parse_range}
use s3xc.Server.Range.Bounds.{parse_range_bounds}
use s3xc.Server.Range.Forms.{
  parse_range_closed, parse_range_wraps, parse_range_open, parse_range_suffix,
}
use s3xc.Tests.World.{env, works, warm, coordinator, manager, listed, bucket, key}
use s3xc.Tests.Facts.{warm_listed, warm_file}

abbrev index : ℕ
index = 12

-- The key holds a colon itself.
split_chunk_key-chunk_key_example :
    split_chunk_key (chunk_key (codes "b/dir:1") 12) ≡ some (codes "b/dir:1", 12)
split_chunk_key-chunk_key_example = split_chunk_key-chunk_key (codes "b/dir:1") 12 (omega arith)

chunk_key_inj_example : (codes "b/dir:1" ≡ codes "b/dir:1") × (index ≡ index)
chunk_key_inj_example = chunk_key_inj (codes "b/dir:1") (codes "b/dir:1") index index refl

read_chunk_range_lem_example :
    Storage.read_chunk_range env coordinator.storage (object_key bucket key) 0 1 3 warm.disk
    ≡ (ok (take 3 (drop 1 (codes "hell"))), warm.disk)
read_chunk_range_lem_example =
    read_chunk_range_lem env works coordinator.storage (object_key bucket key) 0 1 3 (codes "hell")
      warm.disk warm_file (omega arith)

write_chunk_lem_example :
    ((Storage.write_chunk env coordinator.storage (codes "b/k") 2 (codes "rld") warm.disk).0
      ≡ ok tt)
    × ((j : Text) (n : ℕ)
        → chunk_file env works coordinator.storage
            (Storage.write_chunk env coordinator.storage (codes "b/k") 2 (codes "rld") warm.disk).1
            j
            n
          ≡ (if same_file env works coordinator.storage (codes "b/k") 2 j n
              then some (codes "rld")
              else chunk_file env works coordinator.storage warm.disk j n))
write_chunk_lem_example =
    write_chunk_lem env works coordinator.storage (codes "b/k") 2 (codes "rld") warm.disk

listed_keys : All (λ e. IsChunkKey e.0) listed
listed_keys = (
  record { key = object_key bucket key; idx = 0; made = refl; fits = omega arith },
  (record { key = object_key bucket key; idx = 1; made = refl; fits = omega arith }, tt),
)

-- Both chunks go, the second first, as it was used before the other.
check_and_evict-Evicts_example :
    (xs : List Candidate) × Perm xs (completed listed)
    × Sorted xs
    × (e : Evicts env works manager 5 xs 0 warm (check_and_evict env manager warm)) × All
        (λ x. All (λ y. x.last_accessed ≤ℤ y.last_accessed) e.kept)
        e.evicted
check_and_evict-Evicts_example =
    check_and_evict-Evicts env works manager listed warm warm_listed listed_keys (omega arith)
      (omega arith)

-- The limit that the program has by default.
target_of_lem_example :
    (10 * target_of 53687091200 * 2 ^ 50 ≤ 9 * 53687091200 * (2 ^ 50 + 1))
    × (9 * 53687091200 * (2 ^ 50 - 1) ≤ 10 * (target_of 53687091200 + 1) * 2 ^ 50)
    × (target_of 53687091200 ≤ 53687091200)
target_of_lem_example = target_of_lem 53687091200 (omega arith)

target_of_test : target_of 123456789123456789 ≡ 111111110211111104
unfolding target_of round_f64
target_of_test = refl

parse_range_example_runs : parse_range (codes "bytes=2-40") 11 ≡ some (2, 11)
unfolding parse_range starts_with split trim parse_u64
parse_range_example_runs = refl

parse_range_bounds_example : (2 ≤ 11) × (11 ≤ 11)
parse_range_bounds_example =
    parse_range_bounds (codes "bytes=2-40") 11 2 11 parse_range_example_runs

parse_range_closed_example :
    parse_range (codes "bytes=" ++ (print 2 ++ b'-' ∷ print 40)) 11
    ≡ (if ltb (min (40 + 1) 11) 2 then none else some (2, min (40 + 1) 11))
parse_range_closed_example = parse_range_closed 2 40 11 (omega arith) (omega arith)

parse_range_wraps_example :
    parse_range (codes "bytes=" ++ (print 5 ++ b'-' ∷ print u64_max)) 11
    ≡ (if ltb 0 5 then none else some (0, 0))
parse_range_wraps_example = parse_range_wraps 5 11 (omega arith)

parse_range_open_example : parse_range (codes "bytes=" ++ (print 7 ++ b'-' ∷ [])) 11 ≡ some (7, 11)
parse_range_open_example = parse_range_open 7 11 (omega arith)

parse_range_suffix_example :
    parse_range (codes "bytes=" ++ ([] ++ b'-' ∷ print 4)) 11 ≡ some (7, 11)
parse_range_suffix_example = parse_range_suffix 4 11 (omega arith)
