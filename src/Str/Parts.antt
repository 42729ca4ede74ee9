-- ===== src/Str/Parts.antt =====
-- What `split` and `trim` give on a text that was put together of parts.
use s3xc.Prelude.{
  ℕ, ◌≡◌, refl, ap, ◌∙◌, List, [], ◌∷◌, ◌++◌, Text, All, arith, Bool, true, false, ◌&&◌,
}
use s3xc.Str.{is_empty, is_space, trim_start, trim_end, trim, join}
use s3xc.Str.Split.{split, Lacks, split-Lacks}

-- The first part is cut off, and the rest is split as before.
pub split-cons : (c : ℕ) (s t : Text) → Lacks c s → split c (s ++ c ∷ t) ≡ s ∷ split c t
unfolding split
split-cons c [] t h = ground arith
split-cons c (x ∷ s) t h = ground (arith, split-cons c s t h.1)

-- Parts without the separator, joined by it, are split into the same parts.
pub split-join :
    (c : ℕ) (x : Text) (xs : List Text)
    → Lacks c x
    → All (Lacks c) xs
    → split c (join (c ∷ []) (x ∷ xs)) ≡ x ∷ xs
unfolding join
split-join c x [] h hs = split-Lacks c x h
split-join c x (y ∷ ys) h hs =
    split-cons c x (join (c ∷ []) (y ∷ ys)) h ∙ ap (λ t. x ∷ t) (split-join c y ys hs.0 hs.1)

-- A text that does not end in a space, and is not empty.
pub record Ends (s : Text) : Type 0 where
  pub some_text : is_empty s ≡ false
  pub ends : trim_end s ≡ s

append-is_empty : (s t : Text) → is_empty t ≡ false → is_empty (s ++ t) ≡ false
append-is_empty [] t h = h
append-is_empty (x ∷ s) t h = refl

-- Nothing is trimmed off the end of a text if nothing is off its last part.
pub Ends-append : (s t : Text) → Ends t → Ends (s ++ t)
Ends-append s t e = record { some_text = append-is_empty s t e.some_text; ends = ends s }
  where
    and_false : (b : Bool) → (b && false) ≡ false
    and_false true = refl
    and_false false = refl

    step : (x : ℕ) (s : Text) → is_empty s ≡ false → trim_end s ≡ s → trim_end (x ∷ s) ≡ x ∷ s
    step x s some_text same = unfold trim_end in rw (same, some_text, and_false (is_space x)) refl

    ends : (s : Text) → trim_end (s ++ t) ≡ s ++ t
    ends [] = e.ends
    ends (x ∷ s) = step x (s ++ t) (append-is_empty s t e.some_text) (ends s)

-- A text that begins with no space and has none to trim at its end stays as it is.
pub trim-cons : (c : ℕ) (s : Text) → is_space c ≡ false → Ends (c ∷ s) → trim (c ∷ s) ≡ c ∷ s
unfolding trim trim_start
trim-cons c s none_first h = rw none_first h.ends

-- One space in front is trimmed.
pub trim_blank : (s : Text) → trim (32 ∷ s) ≡ trim s
unfolding trim trim_start is_space
trim_blank s = refl
