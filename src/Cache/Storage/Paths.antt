-- ===== src/Cache/Storage/Paths.antt =====
-- The paths of chunk files: their directory, the temporary file beside them, and when two are one.
use s3xc.Prelude.{
  ℕ, ◌≡◌, ◌≢◌, refl, sym, ap, ◌∙◌, false, none, some, [], ◌∷◌, ◌++◌, Text, All, codes, take, drop,
  arith,
}
use s3xc.Str.{rfind}
use s3xc.Str.Decimal.{print, IsDigit, print-IsDigit, print_inj}
use s3xc.Str.Split.{Lacks, splitn2, splitn2-append}
use s3xc.External.{Env}
use s3xc.External.Path.{FilePath, join, parent, with_extension, file_stem, path_eq, path_eq_iff}
use s3xc.External.Works.{IsHex, DigestWorks}
use s3xc.Cache.Storage.{Storage, chunk_path}

parent-join : (p : FilePath) (c : Text) → parent (join p c) ≡ some p
unfolding parent join
parent-join [] c = refl
parent-join (d ∷ []) c = refl
parent-join (d ∷ e ∷ p) c = ground (arith, parent-join (e ∷ p) c)

with_extension-join :
    (x : Text) (p : FilePath) (c : Text)
    → with_extension x (join p c) ≡ join p (file_stem c ++ b'.' ∷ x)
unfolding with_extension join
with_extension-join x [] c = refl
with_extension-join x (d ∷ []) c = refl
with_extension-join x (d ∷ e ∷ p) c = ap (λ q. d ∷ q) (with_extension-join x (e ∷ p) c)

-- The last component of a path.
last_name : FilePath → Text
last_name [] = []
last_name (c ∷ []) = c
last_name (c ∷ d ∷ p) = last_name (d ∷ p)

last_name-join : (p : FilePath) (c : Text) → last_name (join p c) ≡ c
unfolding last_name join
last_name-join [] c = refl
last_name-join (d ∷ []) c = refl
last_name-join (d ∷ e ∷ p) c = last_name-join (e ∷ p) c

Lacks-append : (c : ℕ) (s t : Text) → Lacks c s → Lacks c t → Lacks c (s ++ t)
Lacks-append c [] t h k = k
Lacks-append c (x ∷ s) t h k = (h.0, Lacks-append c s t h.1 k)

hex-Lacks : (c : ℕ) (s : Text) → ¬ IsHex c → All IsHex s → Lacks c s
hex-Lacks c [] n h = tt
hex-Lacks c (x ∷ s) n h = (λ e. ground arith, hex-Lacks c s n h.1)

digits-Lacks : (c : ℕ) (s : Text) → ¬ IsDigit c → All IsDigit s → Lacks c s
digits-Lacks c [] n h = tt
digits-Lacks c (x ∷ s) n h = (λ e. ground arith, digits-Lacks c s n h.1)

rfind-Lacks : (c : ℕ) (s : Text) → Lacks c s → rfind c s ≡ none
unfolding rfind
rfind-Lacks c [] h = refl
rfind-Lacks c (x ∷ s) h = ground (arith, rfind-Lacks c s h.1)

-- A text that lacks `c` is not one that has it.
Lacks-ne : (c : ℕ) (s t u : Text) → Lacks c u → s ++ c ∷ t ≢ u
Lacks-ne c [] t [] h e = cc
Lacks-ne c [] t (x ∷ u) h e = ground arith
Lacks-ne c (y ∷ s) t [] h e = cc
Lacks-ne c (y ∷ s) t (x ∷ u) h e = Lacks-ne c s t u h.1 (cc)

module _ (env : Env) (digest : DigestWorks env.sha256_hex) (storage : Storage) where
  -- The file name of a chunk.
  chunk_name : Text → ℕ → Text
  chunk_name key idx = env.sha256_hex key ++ b'_' ∷ print idx

  name-Lacks_dot : (k : Text) (i : ℕ) → Lacks b'.' (chunk_name k i)
  unfolding chunk_name
  name-Lacks_dot k i =
      Lacks-append b'.' (env.sha256_hex k) (b'_' ∷ print i)
        (hex-Lacks b'.' (env.sha256_hex k) (λ h. ground arith) (digest.hex k))
        (omega arith, digits-Lacks b'.' (print i) (λ h. omega arith) (print-IsDigit i))

  -- The directory of a chunk file.
  pub chunk_dir : Text → FilePath
  chunk_dir key =
      join (join (join storage.cache_dir (codes "data")) (take 2 (env.sha256_hex key)))
        (take 2 (drop 2 (env.sha256_hex key)))

  abbrev pub temp_path : Text → ℕ → FilePath
  temp_path key idx = with_extension (codes "tmp") (chunk_path env storage key idx)

  temp_path-join :
      (k : Text) (i : ℕ) → temp_path k i ≡ join (chunk_dir k) (chunk_name k i ++ b'.' ∷ codes "tmp")
  unfolding chunk_path chunk_dir chunk_name file_stem
  temp_path-join k i =
      rw with_extension-join
        (ground (arith, rfind-Lacks b'.' (chunk_name k i) (name-Lacks_dot k i)))

  pub parent-chunk_path :
      (k : Text) (i : ℕ) → parent (chunk_path env storage k i) ≡ some (chunk_dir k)
  unfolding chunk_path chunk_dir
  parent-chunk_path k i = parent-join _ _

  pub parent-temp_path : (k : Text) (i : ℕ) → parent (temp_path k i) ≡ some (chunk_dir k)
  parent-temp_path k i = rw temp_path-join (parent-join _ _)

  -- No chunk file is the temporary file of a chunk.
  pub temp_path-ne : (k j : Text) (i n : ℕ) → temp_path k i ≢ chunk_path env storage j n
  unfolding chunk_path chunk_name
  temp_path-ne k j i n e =
      Lacks-ne b'.' (chunk_name k i) (codes "tmp") (chunk_name j n) (name-Lacks_dot j n) (
        sym (last_name-join (chunk_dir k) (chunk_name k i ++ b'.' ∷ codes "tmp"))
        ∙ ap last_name (sym (temp_path-join k i) ∙ e)
        ∙ last_name-join _ _)

  pub temp_path-eq :
      (k j : Text) (i n : ℕ) → path_eq (temp_path k i) (chunk_path env storage j n) ≡ false
  temp_path-eq k j i n =
      ground (arith, path_eq_iff (temp_path k i) (chunk_path env storage j n), temp_path-ne k j i n)

  -- Two chunks share a file only if their keys have one digest and their indices are the same.
  pub chunk_path_inj :
      (k j : Text) (i n : ℕ)
      → chunk_path env storage k i ≡ chunk_path env storage j n
      → (env.sha256_hex k ≡ env.sha256_hex j) × (i ≡ n)
  unfolding chunk_path
  chunk_path_inj k j i n e =
      let names : env.sha256_hex k ++ b'_' ∷ print i ≡ env.sha256_hex j ++ b'_' ∷ print n =
        sym (last_name-join _ _) ∙ ap last_name e ∙ last_name-join _ _ in
      let bar : ¬ IsHex b'_' = λ h. ground arith in
      let (digests, prints) : (env.sha256_hex k ≡ env.sha256_hex j) × (print i ≡ print n) = ground (
        arith,
        ap (splitn2 b'_') names,
        splitn2-append b'_' (env.sha256_hex k) (print i)
            (hex-Lacks b'_' (env.sha256_hex k) bar (digest.hex k)),
        splitn2-append b'_' (env.sha256_hex j) (print n)
            (hex-Lacks b'_' (env.sha256_hex j) bar (digest.hex j)),
      ) in
      (digests, print_inj i n prints)
