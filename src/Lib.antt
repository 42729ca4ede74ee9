-- ===== src/Lib.antt =====
-- s3xc is a caching proxy in front of an S3-compatible store: objects are cut into chunks of a
-- fixed size, the chunks lie in files, and a `redb` database records objects and chunks. A request
-- is checked for its signature, a handler answers it from the cache, and the client of the upstream
-- store signs what it sends there. This library models these parts, and proves what a client reads,
-- what the cache holds, and which requests are let in.
--
-- The parts, with paths from the repository's root:
--
-- src/cache/metadata.rs, `MetadataDb`: Cache/Metadata.antt has each method, on the database's own
-- transactions; Cache/Metadata/Types.antt the records that are stored. Cache/Metadata/Laws.antt
-- views the database as two maps.
-- src/cache/storage.rs, `Storage`: Cache/Storage.antt has each method; Cache/Storage/Paths.antt and
-- Cache/Storage/Laws.antt view the disk as a map from chunks to bytes.
-- src/cache/mod.rs, `CacheCoordinator`: Cache/Coordinator.antt has its fields and the clock.
-- Cache/Drop.antt is `drop_cache_for_object` and `get_object_metadata`; Cache/Read.antt is
-- `read_range`, whose futures are planned first and run one after the other when the client reads;
-- Cache/Write.antt is `write_and_cache_object`, and Cache/Copy.antt `copy_cache_object`.
-- src/cache/policy.rs, `EvictionManager`: Cache/Policy.antt, with the product of floats that gives
-- the target size as exact arithmetic.
-- The single-flight download, `ensure_chunk_cached`, is a step relation in Cache/Flight.antt: any
-- number of tasks that want one chunk, interleaved in any order and dropped at any `await`; what the
-- database says of the chunk is one Boolean there, and evictions are left out.
-- src/server/handlers.rs: Server/Range.antt is `parse_range`, Server/Handlers/Fetch.antt the handlers
-- of GET and HEAD, and Server/Handlers/Change.antt those of PUT, DELETE and the fallback.
-- src/server/s3_api.rs, `SigV4Verifier`: Server/S3Api.antt, with the parameters of a signature in
-- Server/S3Api/Params.antt and the text that is signed in Server/S3Api/Canonical.antt.
-- src/server/mod.rs: Server/Middleware.antt has the check in front of all requests and the routes.
-- src/proxy/mod.rs, `ProxyClient`: Proxy.antt has its settings, Proxy/Target.antt `build_url`,
-- Proxy/Sign.antt `prepare_request`, Proxy/Objects.antt the operations on objects, which make it an
-- upstream store for the cache, and Proxy/Generic.antt `proxy_request`. Proxy/Agree relates its
-- signatures to the check of the server, and Proxy/Reads its requests for objects to the answers of a
-- server.
-- src/utils.rs: Utils/Percent.antt has the percent coding, Utils/Errors.antt `S3Error`.
-- src/config.rs, `Config::from_cli`: Config.antt.
-- Cache/Keys.antt has the keys that several of these files write out, and the split of a chunk's
-- key in the eviction.
-- Prelude, Str, Options, Maps, Io and Checked are the shared parts: lists and tests on native
-- numbers, the methods of `str`, `Option` and `HashMap` that the source calls, and results. A failure
-- keeps the state that was reached; `panic` and `diverges` are errors that no `let _ =` catches.
--
-- What the program calls and does not implement is a record of operations in External.antt: the
-- database, the file system, `serde_json`, SHA-256, the clock, and the upstream store behind
-- `ProxyClient`. External/Http.antt adds header maps, HMAC and form decoding, and External/Url.antt
-- URLs and the network. External/Works.antt, External/Remote.antt and External/Http.antt state what
-- the proofs rely on: a transaction reads what is there and changes one key, a file holds what was
-- written, JSON is read back, a digest is hexadecimal, a header that is set is read back, an HMAC takes
-- every key, and the upstream store answers with the object's bytes. External/Url.antt says
-- what URLs keep, and Proxy/Reads.antt what a server behind the client does: it looks at the method, the
-- path, the range and, if it checks them, the signature of a request, answers HEAD with the headers of an
-- object, and GET with the bytes of a range. The tests give an instance of each in memory.
--
-- Operations run one at a time: the theorems hold for requests that do not interleave on one
-- object. The upload task, which runs beside the loop over the body, is modelled by what is sent to
-- it and by a function that says at which send its channel is closed.
--
-- Numbers of type `u64` wrap where the source adds or multiplies them unchecked. The inner loop of
-- `write_and_cache_object` runs on fuel, one round more than the buffer has bytes, which is enough
-- for every positive chunk size; with chunk size 0 the source never leaves the loop. The
-- float of a product is found on fuel of 128 bits, more than such a product has.
--
-- Not modelled: src/main.rs, which sets the parts up and starts them; the matching of paths by the
-- router, which is a parameter; the command line and logging.
pub mod Prelude
pub mod Options
pub mod Maps
pub mod Str
pub mod Io
pub mod Checked
pub mod External
pub mod Cache
pub mod Config
pub mod Server
pub mod Proxy
pub mod Utils
pub mod Tests
