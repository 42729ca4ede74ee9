-- ===== src/Tests/Web.antt =====
-- Header maps, codes, URLs and dates in memory.
use s3xc.Prelude.{
  ℕ, ◌+◌, ◌%◌, ◌≡◌, refl, inl, inr, Bool, true, false, ◌&&◌, ◌||◌, Option, none, some, List, [],
  ◌∷◌, ◌++◌, Bytes, Text, codes, All, arith, leb, ◌==◌, if◌then◌else◌, subst, Bool-cases,
}
use s3xc.Io.{error, ok, err}
use s3xc.Str.Split.{split, splitn2}
use s3xc.External.Http.{Http, Crypto, HttpWorks, CryptoWorks, IsVisible, same_name}
use s3xc.External.Url.{Urls, UrlWorks}
use s3xc.Server.Handlers.{Dates}

unfoldable pub visible : ℕ → Bool
visible c = (leb 32 c && leb c 126) || c == 9

unfoldable pub visible_text : Text → Bool
visible_text [] = true
visible_text (c ∷ s) = visible c && visible_text s

pub visible_text-IsVisible : (s : Text) → visible_text s ≡ true → All IsVisible s
unfolding visible_text visible
visible_text-IsVisible [] h = tt
visible_text-IsVisible (c ∷ s) h = ground (arith, visible_text-IsVisible s)

pub IsVisible-visible_text : (s : Text) → All IsVisible s → visible_text s ≡ true
unfolding visible_text visible
IsVisible-visible_text [] h = refl
IsVisible-visible_text (c ∷ s) h = ground (arith, IsVisible-visible_text s h.1)

find_header : List (Text × Text) → Text → Option Text
find_header [] k = none
find_header (h ∷ hs) k = let rest = find_header hs k in if same_name k h.0 then some h.1 else rest

pair_of : List Text → List (Text × Text)
pair_of (k ∷ v ∷ []) = (k, v) ∷ []
pair_of _ = []

pairs_of : List Text → List (Text × Text)
pairs_of [] = []
pairs_of (p ∷ ps) = pair_of (splitn2 b'=' p) ++ pairs_of ps

unfoldable pub http : Http
unfolding find_header visible_text visible pairs_of pair_of
http = record {
  HeaderMap = List (Text × Text);
  HeaderValue = Text;
  no_headers = [];
  get = find_header;
  contains_key = λ m k. elim (find_header m k) [ some v ↦ true | none ↦ false ];
  insert = λ m n v. (n, v) ∷ m;
  iter = λ m. m;
  to_str = λ v. if visible_text v then some v else none;
  parse = λ s. if visible_text s then ok s else err (error (codes "invalid header value"));
  form_parse = λ q. pairs_of (split b'&' q);
}

pub http_works : HttpWorks http
unfolding http split splitn2
http_works = record {
  get_lem = λ m n k v. refl;
  parse_lem =
      λ s h. (s, rw (IsVisible-visible_text s h) refl, rw (IsVisible-visible_text s h) refl);
  parse_returns = λ s. elim (Bool-cases (visible_text s)) [
    | inl good ↦ inl (s, rw good refl)
    | inr bad ↦ inr (codes "invalid header value", rw bad refl)
  ];
  to_str_lem = λ v s e. read v s (visible_text v) refl e;
  form_lem = refl;
}
  where
    same : (v s : Text) → some v ≡ some s → v ≡ s
    same v s e = cc

    read :
        (v s : Text) (b : Bool)
        → visible_text v ≡ b
        → (if b then some v else none) ≡ some s
        → All IsVisible s
    read v s true good e = subst (All IsVisible) (same v s e) (visible_text-IsVisible v good)
    read v s false bad e = absurd cc

total : Bytes → ℕ
total [] = 0
total (b ∷ bs) = b + total bs

-- The code is a digit of the sum of the key and the data.
unfoldable pub crypto : Crypto
unfolding total
crypto = record {
  Mac = Bytes;
  new_from_slice = λ k. ok k;
  update = λ mac d. mac ++ d;
  finalize = λ mac. mac;
  sha256 = λ b. b;
  hex_encode = λ b. (b'0' + total b % 10) ∷ [];
}

pub crypto_works : CryptoWorks crypto
unfolding crypto
crypto_works = record {
  hmac = λ k d. k ++ d;
  hmac_lem = λ k d. (k, refl, refl);
  hex_lem = λ b. (inl (omega arith, omega arith), tt);
  hmac-ne-nil = λ k d e. cc;
}

-- A URL is its host, its path and its query.
abbrev pub urls : Urls
urls = record {
  Url = Text × Text × Option Text;
  parse = λ t. ok (t, codes "/", none);
  host_str = λ u. some u.0;
  port = λ u. none;
  path = λ u. u.1;
  query = λ u. u.2;
  set_host = λ h u. ok (h, u.1, u.2);
  set_path = λ p u. (u.0, p, u.2);
  set_query = λ q u. (u.0, u.1, q);
}

pub url_works : UrlWorks urls
url_works = record {
  path_lem = λ p u bytes dots. refl;
  path_host = λ p u. refl;
  path_port = λ p u. refl;
  query_lem = λ q u bytes. refl;
  query_none = λ u. refl;
  query_path = λ q u. refl;
  query_host = λ q u. refl;
  query_port = λ q u. refl;
}

-- Every time has one text.
abbrev pub dates : Dates
dates = record {
  DateTime = Unit {0};
  default = tt;
  from_timestamp = λ t. some tt;
  format = λ t. codes "Wed, 25 Nov 2026 16:00:00 GMT";
}
