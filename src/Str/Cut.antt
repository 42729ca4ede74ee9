-- ===== src/Str/Cut.antt =====
-- Texts cut at a question mark, and leading slashes.
use s3xc.Prelude.{
  ℕ, suc, ◌+◌, ◌≡◌, ◌≢◌, refl, ap, ◌∙◌, none, some, [], ◌∷◌, ◌++◌, Text, arith, length, take, drop,
}
use s3xc.Str.{find, trim_start_matches}
use s3xc.Str.Split.{Lacks}

pub find-append : (s t : Text) → Lacks b'?' s → find b'?' (s ++ b'?' ∷ t) ≡ some (length s)
unfolding find
find-append [] t h = refl
find-append (c ∷ s) t h = ground (arith, find-append s t h.1)

pub cut_at :
    (s t : Text) → (take (length s) (s ++ t) ≡ s) × (drop (length s + 1) (s ++ b'?' ∷ t) ≡ t)
cut_at [] t = (refl, refl)
cut_at (c ∷ s) t = (
  ap (λ r. c ∷ r) (cut_at s t).0,
  ap (λ k. drop k (c ∷ (s ++ b'?' ∷ t))) {x = suc (length s) + 1} {y = suc (length s + 1)}
        (omega arith)
      ∙ (cut_at s t).1,
)

pub find-Lacks : (s : Text) → Lacks b'?' s → find b'?' s ≡ none
unfolding find
find-Lacks [] h = refl
find-Lacks (c ∷ s) h = ground (arith, find-Lacks s h.1)

pub trim_slash : (s : Text) → trim_start_matches b'/' (b'/' ∷ s) ≡ trim_start_matches b'/' s
unfolding trim_start_matches
trim_slash s = refl

-- A text that does not begin with a slash keeps its beginning.
pub trim_none : (c : ℕ) (s : Text) → c ≢ b'/' → trim_start_matches b'/' (c ∷ s) ≡ c ∷ s
unfolding trim_start_matches
trim_none c s h = ground arith
