-- ===== src/Tests/Facts.antt =====
-- What holds of the worlds of the tests.
use s3xc.Prelude.{◌≡◌, refl, some, text_eq_refl, codes}
use s3xc.Io.{ok}
use s3xc.Cache.Keys.{object_key}
use s3xc.Cache.Metadata
use s3xc.Cache.Metadata.Laws.{objects}
use s3xc.Cache.Storage.{chunk_path}
use s3xc.External.Path.{path_eq_iff}
use s3xc.Cache.Storage.Laws.{chunk_file}
use s3xc.Cache.Read.Fresh.{Knows, cold}
use s3xc.Tests.Store.{upstream_reads}
use s3xc.Tests.Tables.{redb_works}
use s3xc.Tests.Disk.{fs_works}
use s3xc.Tests.World.{env, works, empty, warm, stored, listed, coordinator, bucket, key}

pub warm_known : objects env works warm.db (object_key bucket key) ≡ ok (some stored.meta)
unfolding works redb_works
warm_known = rw (text_eq_refl (object_key bucket key)) refl

pub warm_listed : Metadata.list_all_chunks env warm.db ≡ (ok listed, warm.db)
unfolding Metadata.list_all_chunks
warm_listed = refl

pub warm_file :
    chunk_file env works coordinator.storage warm.disk (object_key bucket key) 0
    ≡ some (codes "hell")
unfolding works fs_works
warm_file =
    rw ((path_eq_iff (chunk_path env coordinator.storage (object_key bucket key) 0) _).1 refl) refl

pub empty-Knows : Knows env works upstream_reads coordinator bucket key stored empty
unfolding works redb_works
empty-Knows = cold refl (λ i m. cc)

pub hello_stored : upstream_reads.stored empty.remote bucket key ≡ some stored
unfolding upstream_reads
hello_stored = refl
