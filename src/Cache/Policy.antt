-- ===== src/Cache/Policy.antt =====
-- `EvictionManager` of `src/cache/policy.rs`. `start` calls `check_and_evict` once a minute.
pub mod Order
pub mod Evict
pub mod Check
pub mod Target
use s3xc.Prelude.{
  ℕ, zero, suc, ◌+◌, ◌-◌, ◌*◌, ◌/◌, ◌%◌, ◌^◌, min, Bool, ◌&&◌, ◌||◌, Option, none, some, List, [],
  ◌∷◌, Text, ltb, leb, ◌==◌, if◌then◌else◌,
}
use s3xc.Prelude.Int.{ℤ, leb_ℤ}
use s3xc.Io.{Result, ok, err, Io, pure, ◌>>=◌, ◌>>◌, catch}
use s3xc.External.{Env, World, on_db, on_disk}
use s3xc.Cache.Keys.{split_chunk_key}
use s3xc.Cache.Metadata
use s3xc.Cache.Metadata.Types.{ChunkMetadata, is_complete}
use s3xc.Cache.Storage
use s3xc.Cache.Storage.{Storage}
use s3xc.Cache.Coordinator.{u64}

-- The bits that a number has beyond the 53 of a float, on fuel of at least as many rounds.
extra_bits : ℕ → ℕ → ℕ
extra_bits zero n = 0
extra_bits (suc fuel) n =
    let more = extra_bits fuel (n / 2) in if ltb n (2 ^ 53) then 0 else suc more

-- A number divided by a power of two and rounded to the nearest, ties to even.
round_shift : ℕ → ℕ → ℕ
round_shift k n =
    let q = n / 2 ^ k in
    let r = n % 2 ^ k in if ltb (2 ^ k) (2 * r) || (2 * r == 2 ^ k && q % 2 == 1) then q + 1 else q

-- The nearest float of a natural number, which is a natural number too. The products below have
-- less than 128 bits.
unfoldable pub round_f64 : ℕ → ℕ
unfolding extra_bits round_shift
round_f64 n = let k = extra_bits 128 n in round_shift k n * 2 ^ k

-- `(max_size as f64 * 0.9) as u64`. The float `0.9` is 8106479329266893 / 2 ^ 53, and the product,
-- whose rounding does not depend on the power of two, is cut to an integer.
unfoldable pub target_of : ℕ → ℕ
target_of max_size = min (round_f64 (round_f64 max_size * 8106479329266893) / 2 ^ 53) (2 ^ 64 - 1)

-- The database is a part of the environment.
pub record EvictionManager : Type 0 where
  pub storage : Storage
  pub max_size : ℕ
  pub target_size : ℕ

-- `EvictionManager::new`
abbrev pub new : Storage → ℕ → EvictionManager
new storage max_size = record {
  storage = storage;
  max_size = max_size;
  target_size = target_of max_size;
}

-- The key in the database, the size, and the time of the last access.
pub record Candidate : Type 0 where
  pub db_key : Text
  pub size : ℕ
  pub last_accessed : ℤ

-- The loop over all chunks: the total of the sizes, and the chunks that are complete.
unfoldable pub total_size : List (Text × ChunkMetadata) → ℕ → ℕ
total_size [] total = total
total_size ((db_key, chunk) ∷ chunks) total = total_size chunks (u64 (total + chunk.size))

unfoldable pub candidates : List (Text × ChunkMetadata) → List Candidate
candidates [] = []
candidates ((db_key, chunk) ∷ chunks) =
    let rest = candidates chunks in
    if is_complete chunk.status
    then record { db_key = db_key; size = chunk.size; last_accessed = chunk.last_accessed_at }
      ∷ rest
    else rest

-- `sort_by_key`, which is stable: equal keys stay in their order.
unfoldable pub insert : Candidate → List Candidate → List Candidate
insert x [] = x ∷ []
insert x (y ∷ ys) =
    let rest = insert x ys in if leb_ℤ x.last_accessed y.last_accessed then x ∷ y ∷ ys else y ∷ rest

unfoldable pub sort_by_key : List Candidate → List Candidate
unfolding insert
sort_by_key [] = []
sort_by_key (x ∷ xs) = insert x (sort_by_key xs)

module _ (env : Env) (m : EvictionManager) where
  -- The loop over the candidates, with the bytes evicted so far.
  unfoldable pub evict : ℕ → List Candidate → ℕ → Io (World env) ℕ
  evict bytes_to_evict [] bytes_evicted = pure bytes_evicted
  evict bytes_to_evict (x ∷ xs) bytes_evicted =
      let delete : Text → ℕ → Io (World env) ℕ = λ key chunk_idx. do
        catch (on_disk (Storage.delete_chunk env m.storage key chunk_idx))
        deleted ← catch (on_db (Metadata.delete_chunk env key chunk_idx))
        elim deleted [
          | ok _ ↦ evict bytes_to_evict xs (u64 (bytes_evicted + x.size))
          | err e ↦ evict bytes_to_evict xs bytes_evicted
        ]
      in let next : Io (World env) ℕ = elim (split_chunk_key x.db_key) [
        | none ↦ evict bytes_to_evict xs bytes_evicted
        | some (key, chunk_idx) ↦ delete key chunk_idx
      ] in
        if leb bytes_to_evict bytes_evicted then pure bytes_evicted else next

  unfoldable pub check_and_evict : Io (World env) ℕ
  check_and_evict = do
    chunks ← on_db (Metadata.list_all_chunks env)
    let total = total_size chunks 0
    let bytes_to_evict = total - m.target_size
    if leb total m.max_size
        then pure 0
        else evict bytes_to_evict (sort_by_key (candidates chunks)) 0
