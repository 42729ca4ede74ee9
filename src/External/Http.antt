-- ===== src/External/Http.antt =====
-- What requests, answers and their signatures are made of and the program does not implement: the
-- header maps of the crate `http`, `url::form_urlencoded::parse`, HMAC, SHA-256 and `hex`.
pub mod Visible
use s3xc.Prelude.{
  ℕ, ◌≡◌, ◌≢◌, Bool, Option, some, List, Bytes, Text, All, text_eq, ◌≤◌, ◌⊎◌, if◌then◌else◌,
}
use s3xc.Str.{to_lowercase}
use s3xc.Io.{error, Result, ok, err}
use s3xc.External.Works.{IsHex}

-- `parse` makes a header's value of a text, `to_str` reads it back; `insert` replaces what the name
-- had. `form_parse` decodes the pairs of a query.
pub record Http : Type 1 where
  pub HeaderMap : Type 0
  pub HeaderValue : Type 0
  pub no_headers : HeaderMap
  pub get : HeaderMap → Text → Option HeaderValue
  pub contains_key : HeaderMap → Text → Bool
  pub insert : HeaderMap → Text → HeaderValue → HeaderMap
  pub iter : HeaderMap → List (Text × HeaderValue)
  pub to_str : HeaderValue → Option Text
  pub parse : Text → Result HeaderValue
  pub form_parse : Text → List (Text × Text)

-- `new_from_slice` takes the key of an HMAC; `sha256` is the digest.
pub record Crypto : Type 1 where
  pub Mac : Type 0
  pub new_from_slice : Bytes → Result Mac
  pub update : Mac → Bytes → Mac
  pub finalize : Mac → Bytes
  pub sha256 : Bytes → Bytes
  pub hex_encode : Bytes → Text

-- A request as the handlers see it: its method, the path and the query of its URI, its headers.
pub record Request (http : Http) : Type 0 where
  pub method : Text
  pub path : Text
  pub query : Option Text
  pub headers : http.HeaderMap

-- What `to_str` reads: visible ASCII, blanks and tabs.
abbrev pub IsVisible : ℕ → Type 0
IsVisible c = ((32 ≤ c) × (c ≤ 126)) ⊎ (c ≡ 9)

-- Whether two texts name one header: case makes no difference.
unfoldable pub same_name : Text → Text → Bool
unfolding to_lowercase text_eq
same_name k n = text_eq (to_lowercase k) (to_lowercase n)

-- A header that is inserted is what its name gives, other names keep theirs, and the value of a
-- visible text is read back as that text; of any other text
-- `parse` makes a value or an error; a query
-- that is empty has no pairs.
pub record HttpWorks (http : Http) : Type 0 where
  pub get_lem :
      (m : http.HeaderMap) (n k : Text) (v : http.HeaderValue)
      → http.get (http.insert m n v) k ≡ (if same_name k n then some v else http.get m k)
  pub parse_lem :
      (s : Text)
      → All IsVisible s
      → (v : http.HeaderValue) × (http.parse s ≡ ok v) × (http.to_str v ≡ some s)
  pub parse_returns :
      (s : Text)
      → ((v : http.HeaderValue) × (http.parse s ≡ ok v))
        ⊎ ((t : Text) × (http.parse s ≡ err (error t)))
  pub to_str_lem : (v : http.HeaderValue) (s : Text) → http.to_str v ≡ some s → All IsVisible s
  pub form_lem : http.form_parse List.[] ≡ List.[]

-- HMAC takes keys of any length, and its code in hexadecimal is not empty.
pub record CryptoWorks (crypto : Crypto) : Type 0 where
  pub hmac : Bytes → Bytes → Bytes
  pub hmac_lem :
      (k d : Bytes)
      → (mac : crypto.Mac) × (crypto.new_from_slice k ≡ ok mac)
        × (crypto.finalize (crypto.update mac d) ≡ hmac k d)
  pub hex_lem : (b : Bytes) → All IsHex (crypto.hex_encode b)
  pub hmac-ne-nil : (k d : Bytes) → crypto.hex_encode (hmac k d) ≢ List.[]
