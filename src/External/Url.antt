-- ===== src/External/Url.antt =====
-- What the upstream client needs of the crates `url`, `chrono` and `reqwest`: URLs, the text of a
-- time, and the network behind `send`.
use s3xc.Prelude.{ℕ, ◌≤◌, ◌≡◌, ◌≢◌, ◌⊎◌, Option, none, some, List, [], ◌∷◌, Bytes, Text, All}
use s3xc.Prelude.Int.{ℤ}
use s3xc.Io.{Result}
use s3xc.External.Http.{Http}

pub record Urls : Type 1 where
  pub Url : Type 0
  pub parse : Text → Result Url
  pub host_str : Url → Option Text
  pub port : Url → Option ℕ
  pub path : Url → Text
  pub query : Url → Option Text
  pub set_host : Text → Url → Result Url
  pub set_path : Text → Url → Url
  pub set_query : Option Text → Url → Url

-- A byte that the URL standard leaves alone in a path: a letter, a digit or one of `-._~/`.
abbrev pub IsPathByte : ℕ → Type 0
IsPathByte c =
    ((b'a' ≤ c) × (c ≤ b'z'))
    ⊎ ((b'A' ≤ c) × (c ≤ b'Z'))
    ⊎ ((b'-' ≤ c) × (c ≤ b'9'))
    ⊎ (c ≡ b'_')
    ⊎ (c ≡ b'~')

-- No segment of a path begins with a dot, so none is `.` or `..`.
abbrev pub NoDots : Text → Type 0
NoDots [] = Unit
NoDots (c ∷ []) = Unit
NoDots (c ∷ d ∷ s) = (c ≡ b'/' → d ≢ b'.') × NoDots (d ∷ s)

-- A byte that the URL standard leaves alone in a query: visible ASCII but for a few marks. 34 is the
-- double quote and 39 the single one.
abbrev pub IsQueryByte : ℕ → Type 0
IsQueryByte c = (33 ≤ c) × (c ≤ 126) × (c ≢ 34) × (c ≢ b'#') × (c ≢ 39) × (c ≢ b'<') × (c ≢ b'>')

-- For URLs of the schemes http and https: a path and a query that need no coding are read back as they
-- were set; neither changes the host
-- and the port, and the query leaves the path.
pub record UrlWorks (urls : Urls) : Type 0 where
  pub path_lem :
      (p : Text) (u : urls.Url)
      → All IsPathByte (b'/' ∷ p)
      → NoDots (b'/' ∷ p)
      → urls.path (urls.set_path (b'/' ∷ p) u) ≡ b'/' ∷ p
  pub path_host : (p : Text) (u : urls.Url) → urls.host_str (urls.set_path p u) ≡ urls.host_str u
  pub path_port : (p : Text) (u : urls.Url) → urls.port (urls.set_path p u) ≡ urls.port u
  pub query_lem :
      (q : Text) (u : urls.Url)
      → All IsQueryByte q
      → urls.query (urls.set_query (some q) u) ≡ some q
  pub query_none : (u : urls.Url) → urls.query (urls.set_query none u) ≡ none
  pub query_path : (q : Option Text) (u : urls.Url) → urls.path (urls.set_query q u) ≡ urls.path u
  pub query_host :
      (q : Option Text) (u : urls.Url) → urls.host_str (urls.set_query q u) ≡ urls.host_str u
  pub query_port : (q : Option Text) (u : urls.Url) → urls.port (urls.set_query q u) ≡ urls.port u

-- What is sent: `stream` is the body of an upload, `body` one that is at hand.
pub record Outgoing (http : Http) (urls : Urls) : Type 0 where
  pub method : Text
  pub url : urls.Url
  pub headers : http.HeaderMap
  pub body : Option Bytes
  pub stream : Option (List (Result Bytes))

-- What comes back: `chunks` is what `bytes_stream` yields, `text` what `text()` makes of it.
pub record Incoming (http : Http) : Type 0 where
  pub status : ℕ
  pub headers : http.HeaderMap
  pub chunks : List (Result Bytes)
  pub text : Result Text

-- The network, and the clock's n-th reading: `now_text` in the format `%Y%m%dT%H%M%SZ`, `now` in
-- seconds. `from_rfc2822` reads a date as seconds; `status_text` prints a status; `method` is
-- `Method::from_bytes`.
pub record Net (http : Http) (urls : Urls) : Type 1 where
  pub State : Type 0
  pub send : Outgoing http urls → State → Result (Incoming http) × State
  pub now_text : ℕ → Text
  pub now : ℕ → ℤ
  pub from_rfc2822 : Text → Option ℤ
  pub status_text : ℕ → Text
  pub from_bytes : Text → Result Text
