-- ===== src/Cache/Policy/Check.antt =====
-- `check_and_evict`: when it deletes, which chunks, and how much it frees.
use s3xc.Prelude.{
  ℕ, ◌+◌, ◌-◌, ◌^◌, ◌≤◌, ◌<◌, ◌≡◌, refl, subst, sym, ap, ◌∙◌, true, false, inl, inr, List, [], ◌∷◌,
  ◌++◌, Text, All, arith, leb, Bool-cases,
}
use s3xc.Io.{ok}
use s3xc.External.{Env, World}
use s3xc.External.Works.{EnvWorks}
use s3xc.Cache.Metadata
use s3xc.Cache.Metadata.Types.{ChunkMetadata, ChunkStatus, complete, downloading, is_complete}
use s3xc.Cache.Coordinator.{u64}
use s3xc.Cache.Policy.{
  EvictionManager, Candidate, evict, total_size, candidates, sort_by_key, insert, check_and_evict,
}
use mathlib.Core.List.{Perm}
use s3xc.Prelude.Int.{◌≤ℤ◌}
use s3xc.Cache.Policy.Order.{Sorted, All-insert, sort_by_key-Sorted, sort_by_key-Perm}
use s3xc.Cache.Policy.Evict.{sizes, IsChunkKey, Evicts, evict-Evicts}

-- The bytes that all chunks take.
abbrev pub listed_sizes : List (Text × ChunkMetadata) → ℕ
listed_sizes [] = 0
listed_sizes ((k, chunk) ∷ listed) = chunk.size + listed_sizes listed

total_size_lem :
    (listed : List (Text × ChunkMetadata)) (n : ℕ)
    → n + listed_sizes listed < 2 ^ 64
    → total_size listed n ≡ n + listed_sizes listed
unfolding total_size
total_size_lem [] n small = omega arith
total_size_lem ((k, chunk) ∷ listed) n small =
    let size : u64 (n + chunk.size) ≡ n + chunk.size = omega arith in
    rw size (total_size_lem listed (n + chunk.size) (omega arith) ∙ omega arith)

sizes-candidates :
    (listed : List (Text × ChunkMetadata)) → sizes (candidates listed) ≤ listed_sizes listed
unfolding candidates
sizes-candidates [] = omega arith
sizes-candidates ((k, chunk) ∷ listed) = ground (arith, sizes-candidates listed)

sizes-insert : (x : Candidate) (xs : List Candidate) → sizes (insert x xs) ≡ x.size + sizes xs
unfolding insert
sizes-insert x [] = refl
sizes-insert x (y ∷ ys) = ground (arith, sizes-insert x ys)

sizes-sort : (xs : List Candidate) → sizes (sort_by_key xs) ≡ sizes xs
unfolding sort_by_key
sizes-sort [] = refl
sizes-sort (x ∷ xs) = omega (arith, sizes-insert x (sort_by_key xs), sizes-sort xs)

sizes-append : (xs ys : List Candidate) → sizes (xs ++ ys) ≡ sizes xs + sizes ys
sizes-append [] ys = omega arith
sizes-append (x ∷ xs) ys = omega (arith, sizes-append xs ys)

All-sort : (P : Candidate → Type 0) (xs : List Candidate) → All P xs → All P (sort_by_key xs)
unfolding sort_by_key
All-sort P [] all = tt
All-sort P (x ∷ xs) all = All-insert P x (sort_by_key xs) all.0 (All-sort P xs all.1)

All-append_right : (P : Candidate → Type 0) (xs ys : List Candidate) → All P (xs ++ ys) → All P ys
All-append_right P [] ys all = all
All-append_right P (x ∷ xs) ys all = All-append_right P xs ys all.1

-- In a sorted list what comes first is no newer than what comes later.
Sorted-append :
    (xs ys : List Candidate)
    → Sorted (xs ++ ys)
    → All (λ x. All (λ y. x.last_accessed ≤ℤ y.last_accessed) ys) xs
Sorted-append [] ys s = tt
Sorted-append (x ∷ xs) ys s =
    (All-append_right (λ y. x.last_accessed ≤ℤ y.last_accessed) xs ys s.0, Sorted-append xs ys s.1)

-- One candidate for a chunk of this status, if it is complete.
abbrev of_status : ChunkStatus → Candidate → List Candidate
of_status complete x = x ∷ []
of_status downloading x = []

-- What may be evicted: the chunks whose download is complete.
abbrev pub completed : List (Text × ChunkMetadata) → List Candidate
completed [] = []
completed ((k, chunk) ∷ listed) =
    of_status chunk.status
      (record { db_key = k; size = chunk.size; last_accessed = chunk.last_accessed_at })
    ++ completed listed

candidates-completed : (listed : List (Text × ChunkMetadata)) → candidates listed ≡ completed listed
unfolding candidates
candidates-completed [] = refl
candidates-completed ((k, chunk) ∷ listed) = one chunk.status refl (candidates-completed listed)
  where
    one :
        (st : ChunkStatus)
        → chunk.status ≡ st
        → candidates listed ≡ completed listed
        → candidates ((k, chunk) ∷ listed) ≡ completed ((k, chunk) ∷ listed)
    one complete e rest = rw (e, rest) refl
    one downloading e rest = rw (e, rest) refl

module _ (env : Env) (works : EnvWorks env) (m : EvictionManager) where
  All-candidates :
      (P : Text → Type 0) (listed : List (Text × ChunkMetadata))
      → All (λ e. P e.0) listed
      → All (λ x. P x.db_key) (candidates listed)
  unfolding candidates
  All-candidates P [] all = tt
  All-candidates P ((k, chunk) ∷ listed) all = elim (Bool-cases (is_complete chunk.status)) [
    | inl done ↦ rw done ((all.0, All-candidates P listed all.1))
    | inr other ↦ rw other (All-candidates P listed all.1)
  ]

  check_below :
      (listed : List (Text × ChunkMetadata)) (w : World env)
      → Metadata.list_all_chunks env w.db ≡ (ok listed, w.db)
      → total_size listed 0 ≤ m.max_size
      → check_and_evict env m w ≡ (ok 0, w)
  unfolding check_and_evict
  check_below listed w list le =
      let small : leb (total_size listed 0) m.max_size ≡ true = ground arith in
      rw (list, small) refl

  check_above :
      (listed : List (Text × ChunkMetadata)) (w : World env)
      → Metadata.list_all_chunks env w.db ≡ (ok listed, w.db)
      → m.max_size < total_size listed 0
      → check_and_evict env m w
        ≡ evict env m (total_size listed 0 - m.target_size) (sort_by_key (candidates listed)) 0 w
  unfolding check_and_evict
  check_above listed w list gt =
      let large : leb (total_size listed 0) m.max_size ≡ false = ground arith in
      rw (list, large) refl

  -- From a listed cache over its limit, whose chunk keys are well formed and whose sizes add up
  -- to less than 2 ^ 64: there is an order of the complete chunks, each once, by the time of their
  -- last use, in which chunks are evicted from the first on, each only while the bytes freed before
  -- it are too few to come down to the target size, and until they are enough or no complete chunk
  -- is left. No complete chunk that stays was used before one that is evicted. What is evicted is
  -- gone from the database and the disk, all else is as it was, and the bytes evicted are returned.
  pub check_and_evict-Evicts :
      (listed : List (Text × ChunkMetadata)) (w : World env)
      → Metadata.list_all_chunks env w.db ≡ (ok listed, w.db)
      → All (λ e. IsChunkKey e.0) listed
      → listed_sizes listed < 2 ^ 64
      → m.max_size < listed_sizes listed
      → (xs : List Candidate) × Perm xs (completed listed)
        × Sorted xs
        × (e : Evicts env works m
            (listed_sizes listed - m.target_size)
            xs
            0
            w
            (check_and_evict env m w))
        × All (λ x. All (λ y. x.last_accessed ≤ℤ y.last_accessed) e.kept) e.evicted
  check_and_evict-Evicts listed w list keys small gt =
      let total = total_size_lem listed 0 (omega arith) in
      let xs = sort_by_key (candidates listed) in
      let sorted = sort_by_key-Sorted (candidates listed) in
      let all =
        All-sort (λ x. IsChunkKey x.db_key) (candidates listed)
          (All-candidates IsChunkKey listed keys) in
      let bound : 0 + sizes xs < 2 ^ 64 =
        omega (arith, sizes-candidates listed, sizes-sort (candidates listed)) in
      let e = evict-Evicts env works m (listed_sizes listed - m.target_size) 0 xs w all bound in
      let same : check_and_evict env m w
          ≡ evict env m (listed_sizes listed - m.target_size) xs 0 w =
        check_above listed w list (omega (arith, total))
        ∙ ap (λ n. evict env m (n - m.target_size) xs 0 w) {x = total_size listed 0}
            {y = listed_sizes listed} (omega (arith, total)) in
      let both : (e' : Evicts env works m (listed_sizes listed - m.target_size) xs 0 w
            (check_and_evict env m w))
          × All (λ x. All (λ y. x.last_accessed ≤ℤ y.last_accessed) e'.kept) e'.evicted =
        rw same (e, Sorted-append e.evicted e.kept (rw (sym e.split) sorted)) in
      (
        xs,
        subst (Perm xs) (candidates-completed listed) (sort_by_key-Perm (candidates listed)),
        sorted,
        both.0,
        both.1,
      )
