-- ===== src/Utils/Percent.antt =====
-- `s3_percent_encode` and `percent_decode` of `src/utils.rs`, on the bytes of a text. The decoder's
-- last step, `String::from_utf8_lossy`, is a parameter.
use s3xc.Prelude.{
  ℕ, ◌+◌, ◌-◌, ◌*◌, ◌/◌, ◌%◌, ◌<◌, ◌≡◌, refl, ap, ◌∙◌, Bool, true, false, ◌&&◌, ◌||◌, Option, none,
  some, inl, inr, [], ◌∷◌, Bytes, Text, All, arith, ltb, leb, ◌==◌, Bool-cases, if◌then◌else◌,
}

-- The bytes that stay as they are.
unfoldable pub is_unreserved : ℕ → Bool
is_unreserved b =
    (leb b'A' b && leb b b'Z')
    || (leb b'a' b && leb b b'z')
    || (leb b'0' b && leb b b'9')
    || b == b'-'
    || b == b'.'
    || b == b'_'
    || b == b'~'

-- A digit of `{:02X}`.
hex_upper : ℕ → ℕ
hex_upper n = if ltb n 10 then b'0' + n else b'A' + (n - 10)

unfoldable pub s3_percent_encode : Text → Text
unfolding is_unreserved hex_upper
s3_percent_encode [] = []
s3_percent_encode (byte ∷ input) =
    let rest = s3_percent_encode input in
    if is_unreserved byte
    then byte ∷ rest
    else b'%' ∷ hex_upper (byte / 16) ∷ hex_upper (byte % 16) ∷ rest

-- A hexadecimal digit of either case.
unfoldable pub digit_of : ℕ → Option ℕ
digit_of c =
    if leb b'0' c && leb c b'9'
    then some (c - b'0')
    else if leb b'A' c && leb c b'F'
    then some (c - b'A' + 10)
    else if leb b'a' c && leb c b'f'
    then some (c - b'a' + 10)
    else none

-- `u8::from_str_radix` on two characters: two digits, or a plus sign and one.
unfoldable pub from_hex : ℕ → ℕ → Option ℕ
from_hex h l = elim (digit_of l) [
  | none ↦ none
  | some low ↦ elim (digit_of h) [
    | some high ↦ some (high * 16 + low)
    | none ↦ if h == b'+' then some low else none
  ]
]

-- The loop over the bytes: behind a `%` two more are taken, whether they are digits or not.
unfoldable pub decode_bytes : Text → Bytes
decode_bytes [] = []
decode_bytes (b ∷ []) = b ∷ []
decode_bytes (b ∷ h ∷ []) =
    let rest = decode_bytes (h ∷ []) in if b == b'%' then b ∷ [] else b ∷ rest
decode_bytes (b ∷ h ∷ l ∷ input) =
    let rest = decode_bytes (h ∷ l ∷ input) in
    let behind = decode_bytes input in
    if b == b'%'
    then elim (from_hex h l) [ some hex_byte ↦ hex_byte ∷ behind | none ↦ b ∷ behind ]
    else b ∷ rest

unfoldable pub percent_decode : (from_utf8_lossy : Bytes → Text) → Text → Text
percent_decode from_utf8_lossy input = from_utf8_lossy (decode_bytes input)

-- A byte is a byte.
abbrev pub IsByte : ℕ → Type 0
IsByte b = b < 256

digit_of-hex_upper : (n : ℕ) → n < 16 → digit_of (hex_upper n) ≡ some n
unfolding digit_of hex_upper
digit_of-hex_upper n h = ground arith

from_hex_digits :
    (h l a b : ℕ) → digit_of h ≡ some a → digit_of l ≡ some b → from_hex h l ≡ some (a * 16 + b)
unfolding from_hex
from_hex_digits h l a b high low = ground arith

from_hex-hex_upper : (b : ℕ) → b < 256 → from_hex (hex_upper (b / 16)) (hex_upper (b % 16)) ≡ some b
from_hex-hex_upper b h =
    from_hex_digits _ _ _ _ (digit_of-hex_upper (b / 16) (omega arith))
      (digit_of-hex_upper (b % 16) (omega arith))
    ∙ ap some {x = b / 16 * 16 + b % 16} {y = b} (omega arith)

not_percent : (b : ℕ) → is_unreserved b ≡ true → (b == b'%') ≡ false
unfolding is_unreserved
not_percent b h = ground arith

decode_plain :
    (b : ℕ) (s : Text) → is_unreserved b ≡ true → decode_bytes (b ∷ s) ≡ b ∷ decode_bytes s
unfolding decode_bytes
decode_plain b [] h = refl
decode_plain b (c ∷ []) h = rw (not_percent b h) refl
decode_plain b (c ∷ d ∷ s) h = rw (not_percent b h) refl

decode_coded :
    (h l b : ℕ) (s : Text)
    → from_hex h l ≡ some b
    → decode_bytes (b'%' ∷ h ∷ l ∷ s) ≡ b ∷ decode_bytes s
unfolding decode_bytes
decode_coded h l b s e = rw e refl

decode_nil : decode_bytes [] ≡ []
unfolding decode_bytes
decode_nil = refl

pub decode_bytes-encode : (s : Text) → All IsByte s → decode_bytes (s3_percent_encode s) ≡ s
unfolding s3_percent_encode
decode_bytes-encode [] all = decode_nil
decode_bytes-encode (b ∷ s) all = elim (Bool-cases (is_unreserved b)) [
  | inl plain ↦
      rw plain
        (decode_plain b (s3_percent_encode s) plain ∙ ap (λ r. b ∷ r) (decode_bytes-encode s all.1))
  | inr coded ↦ rw coded (
      decode_coded _ _ b (s3_percent_encode s) (from_hex-hex_upper b all.0)
      ∙ ap (λ r. b ∷ r) (decode_bytes-encode s all.1))
]

-- What is encoded is decoded to the same text, whatever bytes it has, where the UTF-8 decoder
-- gives that text back for its own bytes.
pub percent_decode-encode :
    (from_utf8_lossy : Bytes → Text) (s : Text)
    → All IsByte s
    → from_utf8_lossy s ≡ s
    → percent_decode from_utf8_lossy (s3_percent_encode s) ≡ s
unfolding percent_decode
percent_decode-encode from_utf8_lossy s all valid =
    ap from_utf8_lossy (decode_bytes-encode s all) ∙ valid

percent_safe : (is_unreserved b'%' || b'%' == b'%') ≡ true
unfolding is_unreserved
percent_safe = refl

hex_upper_safe : (n : ℕ) → n < 16 → (is_unreserved (hex_upper n) || hex_upper n == b'%') ≡ true
unfolding is_unreserved hex_upper
hex_upper_safe n h = ground arith

-- Every byte of an encoded text is one that a URL carries as it is, or the percent sign.
pub s3_percent_encode-All :
    (s : Text)
    → All IsByte s
    → All (λ c. (is_unreserved c || c == b'%') ≡ true) (s3_percent_encode s)
unfolding s3_percent_encode
s3_percent_encode-All [] all = tt
s3_percent_encode-All (b ∷ s) all =
    let rest = s3_percent_encode-All s all.1 in
    elim (Bool-cases (is_unreserved b)) [
      | inl plain ↦ rw plain ((rw plain refl, rest))
      | inr coded ↦ rw coded (
          (
            percent_safe,
            (
              hex_upper_safe (b / 16) (omega (arith, all.0)),
              (hex_upper_safe (b % 16) (omega arith), rest),
            ),
          ))
    ]
