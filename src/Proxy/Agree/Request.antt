-- ===== src/Proxy/Agree/Request.antt =====
-- The verifier builds the text that the client has signed.
use s3xc.Prelude.{
  ◌≡◌, refl, Bool, true, false, Option, none, some, List, [], ◌∷◌, Text, codes, All, arith,
}
use s3xc.Options.{◌>>=◌, option_map, unwrap_or}
use s3xc.Str.{to_lowercase, join, is_space, trim_end}
use s3xc.Str.Split.{split}
use s3xc.Str.Sort.{sort_by, insert_by, text_leb}
use s3xc.External.Http.{Http, HttpWorks, same_name, Crypto, Request}
use s3xc.External.Url.{Urls}
use s3xc.Proxy.Sign
use s3xc.Proxy.Sign.{signed_headers}
use s3xc.Proxy.Agree.Header.{IsField}
use s3xc.Server.S3Api.Canonical
use s3xc.Server.S3Api.Canonical.{header_value, retain_unsigned, build_canonical_request}
use s3xc.Server.S3Api.Params.{SigParams}

-- The names that may be signed, by whether there is a range and a copy source.
abbrev pub names : (ranged copied : Bool) → List Text
names false false = codes "host" ∷ codes "x-amz-content-sha256" ∷ codes "x-amz-date" ∷ []
names true false =
    codes "host" ∷ codes "range" ∷ codes "x-amz-content-sha256" ∷ codes "x-amz-date" ∷ []
names false true =
    codes "host"
    ∷ codes "x-amz-content-sha256"
    ∷ codes "x-amz-copy-source"
    ∷ codes "x-amz-date"
    ∷ []
names true true =
    codes "host"
    ∷ codes "range"
    ∷ codes "x-amz-content-sha256"
    ∷ codes "x-amz-copy-source"
    ∷ codes "x-amz-date"
    ∷ []

abbrev pub list_of : List Text → Text
list_of xs = join (b';' ∷ []) xs

pub names-IsField : (r c : Bool) → IsField (list_of (names r c))
unfolding join trim_end is_space
names-IsField false false = record {
  ends = record { some_text = refl; ends = refl };
  no_comma = ground arith;
}
names-IsField true false = record {
  ends = record { some_text = refl; ends = refl };
  no_comma = ground arith;
}
names-IsField false true = record {
  ends = record { some_text = refl; ends = refl };
  no_comma = ground arith;
}
names-IsField true true = record {
  ends = record { some_text = refl; ends = refl };
  no_comma = ground arith;
}

pub split-names : (r c : Bool) → split b';' (list_of (names r c)) ≡ names r c
unfolding join split
split-names false false = refl
split-names true false = refl
split-names false true = refl
split-names true true = refl

-- A name that the client signs: in lower case, and another than that of the signature.
abbrev IsName : Text → Type 0
IsName n = (same_name n (codes "authorization") ≡ false) × (to_lowercase n ≡ n)

names-IsName : (r c : Bool) → All IsName (names r c)
unfolding same_name
names-IsName false false = ((refl, refl), ((refl, refl), ((refl, refl), tt)))
names-IsName true false = ((refl, refl), ((refl, refl), ((refl, refl), ((refl, refl), tt))))
names-IsName false true = ((refl, refl), ((refl, refl), ((refl, refl), ((refl, refl), tt))))
names-IsName true true =
    ((refl, refl), ((refl, refl), ((refl, refl), ((refl, refl), ((refl, refl), tt)))))

module _ (http : Http) (works : HttpWorks http) where
  -- Whatever is in the headers, one of the four lists is signed.
  pub signed_headers-names :
      (h : http.HeaderMap)
      → signed_headers http h
        ≡ names
            (http.contains_key h (codes "range"))
            (http.contains_key h (codes "x-amz-copy-source"))
  unfolding signed_headers sort_by insert_by text_leb
  signed_headers-names h =
      go (http.contains_key h (codes "range")) (http.contains_key h (codes "x-amz-copy-source"))
    where
      go :
          (r c : Bool)
          → sort_by
              (λ s. s)
              (Sign.when c (codes "x-amz-copy-source") (
                Sign.when r
                  (codes "range")
                  (codes "host" ∷ codes "x-amz-content-sha256" ∷ codes "x-amz-date" ∷ [])))
            ≡ names r c
      go false false = refl
      go true false = refl
      go false true = refl
      go true true = refl

  -- The signature's own header changes no signed value.
  header_value-insert :
      (h : http.HeaderMap) (a : http.HeaderValue) (n : Text)
      → same_name n (codes "authorization") ≡ false
      → header_value http (http.insert h (codes "authorization") a) n ≡ Sign.header_value http h n
  unfolding header_value Sign.header_value
  header_value-insert h a n other = rw (works.get_lem h (codes "authorization") n a, other) refl

  canonical_headers-insert :
      (h : http.HeaderMap) (a : http.HeaderValue) (ns : List Text)
      → All IsName ns
      → Canonical.canonical_headers http (http.insert h (codes "authorization") a) ns
        ≡ Sign.canonical_headers http h ns
  unfolding Canonical.canonical_headers Sign.canonical_headers
  canonical_headers-insert h a [] good = refl
  canonical_headers-insert h a (n ∷ ns) good =
      rw (canonical_headers-insert h a ns good.1, header_value-insert h a n good.0.0, good.0.1) refl

  -- The pairs of a query; one that is missing has none.
  form_pairs :
      (q : Option Text)
      → http.form_parse (unwrap_or q []) ≡ unwrap_or (option_map http.form_parse q) []
  form_pairs none = works.form_lem
  form_pairs (some q) = refl

  canonical_query_lem :
      (pairs : List (Text × Text)) → Canonical.canonical_query pairs ≡ Sign.canonical_query pairs
  unfolding Canonical.canonical_query Sign.canonical_query
  canonical_query_lem pairs = refl

-- The request as the server gets it.
abbrev pub received :
    {http : Http} (urls : Urls) (method : Text) → urls.Url → http.HeaderMap → Request http
received urls method url headers = record {
  method = method;
  path = urls.path url;
  query = urls.query url;
  headers = headers;
}

module _ (http : Http) (works : HttpWorks http) (crypto : Crypto) (urls : Urls) where
  -- With the hash in its header, and no pair of the query that names a signature, both sides have
  -- one text.
  pub build_canonical_request-received :
      (method : Text) (url : urls.Url) (h : http.HeaderMap) (a : http.HeaderValue) (hash : Text)
      (p : SigParams)
      → p.signed_headers ≡ signed_headers http h
      → (http.get h (codes "x-amz-content-sha256") >>= http.to_str) ≡ some hash
      → retain_unsigned (unwrap_or (option_map http.form_parse (urls.query url)) [])
        ≡ unwrap_or (option_map http.form_parse (urls.query url)) []
      → build_canonical_request http
          (received urls method url (http.insert h (codes "authorization") a))
          p
        ≡ Sign.canonical_request http crypto urls method url h hash
  unfolding build_canonical_request Sign.canonical_request same_name
  build_canonical_request-received method url h a hash p same hashed unsigned =
      rw
        (
          works.get_lem h (codes "authorization") (codes "x-amz-content-sha256") a,
          hashed,
          same,
          signed_headers-names http works h,
          canonical_headers-insert http works h a _ (names-IsName _ _),
          form_pairs http works (urls.query url),
          unsigned,
          canonical_query_lem http works
              (unwrap_or (option_map http.form_parse (urls.query url)) []),
        )
        refl
