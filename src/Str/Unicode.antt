-- ===== src/Str/Unicode.antt =====
-- `str::trim` on text in UTF-8: every character of the Unicode property White_Space, by its bytes.
use s3xc.Prelude.{
  ℕ, zero, suc, ◌≡◌, refl, Bool, false, ◌&&◌, ◌||◌, [], ◌∷◌, Text, leb, ◌==◌, if◌then◌else◌,
}
use s3xc.Str.{is_space}

-- U+0085 and U+00A0
unfoldable pub is_space_2 : ℕ → ℕ → Bool
is_space_2 a b = a == 194 && (b == 133 || b == 160)

-- U+1680, U+2000 to U+200A, U+2028, U+2029, U+202F, U+205F and U+3000
unfoldable pub is_space_3 : ℕ → ℕ → ℕ → Bool
is_space_3 a b c =
    (a == 225 && b == 154 && c == 128)
    || (a == 226 && b == 128 && ((leb 128 c && leb c 138) || c == 168 || c == 169 || c == 175))
    || (a == 226 && b == 129 && c == 159)
    || (a == 227 && b == 128 && c == 128)

-- The number of bytes of a white-space character in front; 0 if there is none.
unfoldable pub space_length : Text → ℕ
unfolding is_space is_space_2 is_space_3
space_length [] = 0
space_length (a ∷ []) = if is_space a then 1 else 0
space_length (a ∷ b ∷ []) = if is_space a then 1 else if is_space_2 a b then 2 else 0
space_length (a ∷ b ∷ c ∷ s) =
    if is_space a then 1 else if is_space_2 a b then 2 else if is_space_3 a b c then 3 else 0

-- Without the next `n` bytes, and without the white space behind them.
unfoldable pub skip : ℕ → Text → Text
unfolding space_length
skip n [] = []
skip (suc n) (c ∷ s) = skip n s
skip zero (c ∷ s) = elim (space_length (c ∷ s)) [ zero ↦ c ∷ s | suc n ↦ skip n s ]

-- Whether a text is one character of white space.
unfoldable pub is_blank : Text → Bool
unfolding is_space is_space_2 is_space_3
is_blank (a ∷ []) = is_space a
is_blank (a ∷ b ∷ []) = is_space_2 a b
is_blank (a ∷ b ∷ c ∷ []) = is_space_3 a b c
is_blank _ = false

unfoldable pub strip_end : Text → Text
unfolding is_blank
strip_end [] = []
strip_end (c ∷ s) = let rest = strip_end s in if is_blank (c ∷ rest) then [] else c ∷ rest

-- `s.trim()`
unfoldable pub trim_unicode : Text → Text
unfolding skip strip_end
trim_unicode s = strip_end (skip 0 s)

-- Blanks of one, two and three bytes around a letter.
trim_test :
    trim_unicode (32 ∷ 194 ∷ 160 ∷ 226 ∷ 128 ∷ 131 ∷ b'k' ∷ 227 ∷ 128 ∷ 128 ∷ 9 ∷ []) ≡ b'k' ∷ []
unfolding trim_unicode
trim_test = refl
