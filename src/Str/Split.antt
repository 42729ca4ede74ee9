-- ===== src/Str/Split.antt =====
-- `split` and `splitn(2, _)` of `str`, and what they give on a text around a separator.
use s3xc.Prelude.{ℕ, ◌≡◌, ◌≢◌, refl, List, [], ◌∷◌, ◌++◌, Text, All, arith, ◌==◌, if◌then◌else◌}

-- The first part, put before the other parts.
abbrev pub on_head : ℕ → List Text → List Text
on_head c [] = (c ∷ []) ∷ []
on_head c (p ∷ ps) = (c ∷ p) ∷ ps

-- `s.split(c)`
unfoldable pub split : ℕ → Text → List Text
split c [] = [] ∷ []
split c (x ∷ s) = let parts = split c s in if x == c then [] ∷ parts else on_head x parts

-- `s.splitn(2, c)`: the rest after the first separator stays whole.
unfoldable pub splitn2 : ℕ → Text → List Text
splitn2 c [] = [] ∷ []
splitn2 c (x ∷ s) = let parts = splitn2 c s in if x == c then [] ∷ s ∷ [] else on_head x parts

abbrev pub Lacks : ℕ → Text → Type 0
Lacks c s = All (λ x. x ≢ c) s

-- A text before the first separator and the text behind it are found by `splitn(2, _)`.
pub splitn2-append : (c : ℕ) (s t : Text) → Lacks c s → splitn2 c (s ++ c ∷ t) ≡ s ∷ t ∷ []
unfolding splitn2
splitn2-append c [] t h = ground arith
splitn2-append c (x ∷ s) t h = ground (arith, splitn2-append c s t h.1)

-- A text with no separator is one part.
pub split-Lacks : (c : ℕ) (s : Text) → Lacks c s → split c s ≡ s ∷ []
unfolding split
split-Lacks c [] h = refl
split-Lacks c (x ∷ s) h = ground (arith, split-Lacks c s h.1)

-- One separator between texts that have none makes two parts.
pub split-append : (c : ℕ) (s t : Text) → Lacks c s → Lacks c t → split c (s ++ c ∷ t) ≡ s ∷ t ∷ []
unfolding split
split-append c [] t h k = ground (arith, split-Lacks c t k)
split-append c (x ∷ s) t h k = ground (arith, split-append c s t h.1 k)
