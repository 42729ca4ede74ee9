-- ===== src/External/Path.antt =====
-- The methods of `std::path` that the source calls, on paths by their components.
use s3xc.Prelude.{
  zero, suc, ◌≡◌, ◌↔◌, Bool, true, false, ◌&&◌, Option, none, some, List, [], ◌∷◌, ◌++◌, Text,
  arith, take, text_eq, text_eq_iff,
}
use s3xc.Str.{rfind}

abbrev pub FilePath : Type 0
FilePath = List Text

-- `path.join(component)`
unfoldable pub join : FilePath → Text → FilePath
join path component = path ++ component ∷ []

-- `path.parent()`
unfoldable pub parent : FilePath → Option FilePath
parent [] = none
parent (c ∷ []) = some []
parent (c ∷ d ∷ path) = elim (parent (d ∷ path)) [ none ↦ none | some p ↦ some (c ∷ p) ]

-- The file name without its extension: a dot at its start begins no extension.
unfoldable pub file_stem : Text → Text
file_stem name = elim (rfind b'.' name) [
  | none ↦ name
  | some zero ↦ name
  | some (suc p) ↦ take (suc p) name
]

-- `path.with_extension(extension)`
unfoldable pub with_extension : Text → FilePath → FilePath
unfolding file_stem
with_extension extension [] = []
with_extension extension (c ∷ []) = (file_stem c ++ b'.' ∷ extension) ∷ []
with_extension extension (c ∷ d ∷ path) = c ∷ with_extension extension (d ∷ path)

unfoldable pub path_eq : FilePath → FilePath → Bool
path_eq [] [] = true
path_eq [] (d ∷ q) = false
path_eq (c ∷ p) [] = false
path_eq (c ∷ p) (d ∷ q) = text_eq c d && path_eq p q

pub path_eq_iff : (p q : FilePath) → (path_eq p q ≡ true) ↔ (p ≡ q)
unfolding path_eq
path_eq_iff [] [] = ground arith
path_eq_iff [] (d ∷ q) = ground arith
path_eq_iff (c ∷ p) [] = ground arith
path_eq_iff (c ∷ p) (d ∷ q) = ground (arith, text_eq_iff c d, path_eq_iff p q)
