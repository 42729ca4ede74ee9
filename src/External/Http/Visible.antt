-- ===== src/External/Http/Visible.antt =====
-- Texts that a header can carry.
use s3xc.Prelude.{ℕ, ◌≡◌, Bool, true, ◌&&◌, [], ◌∷◌, Text, All, arith, leb}
use s3xc.Str.Decimal.{IsDigit}
use s3xc.External.Works.{IsHex}
use s3xc.External.Http.{IsVisible}

pub IsVisible-IsHex : (s : Text) → All IsHex s → All IsVisible s
IsVisible-IsHex [] h = tt
IsVisible-IsHex (c ∷ s) h = (ground arith, IsVisible-IsHex s h.1)

pub IsVisible-IsDigit : (s : Text) → All IsDigit s → All IsVisible s
IsVisible-IsDigit [] h = tt
IsVisible-IsDigit (c ∷ s) h = (ground arith, IsVisible-IsDigit s h.1)

unfoldable pub is_visible : ℕ → Bool
is_visible c = leb 32 c && leb c 126

-- A text is visible if a test says so of each byte.
unfoldable pub all_visible : Text → Bool
unfolding is_visible
all_visible [] = true
all_visible (c ∷ s) = is_visible c && all_visible s

pub all_visible-IsVisible : (s : Text) → all_visible s ≡ true → All IsVisible s
unfolding all_visible
all_visible-IsVisible [] h = tt
all_visible-IsVisible (c ∷ s) h = ground (arith, all_visible-IsVisible s)
