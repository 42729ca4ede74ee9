-- ===== src/Proxy/Reads/Requests.antt =====
-- The requests that `prepare_request` of `src/proxy/mod.rs` makes for an object, as a server gets them.
use s3xc.Prelude.{
  [], ℕ, ◌-◌, ◌++◌, ◌∷◌, All-append, arith, ◌≤◌, ◌≡◌, refl, sym, ap, ◌∙◌, inl, Option, none, some,
  Bytes, Text, codes, All, length,
}
use s3xc.Io.{bind_ok_inv, Result, ok}
use s3xc.Options.{unwrap_or}
use s3xc.Str.Decimal.{print, print-IsDigit}
use s3xc.External.Http.{Http, HttpWorks, same_name, IsVisible, Crypto, CryptoWorks}
use s3xc.External.Http.Visible.{IsVisible-IsDigit, all_visible, all_visible-IsVisible}
use s3xc.External.Url.{UrlWorks, IsPathByte, NoDots, Urls, Outgoing}
use s3xc.Cache.Read.{range_header}
use s3xc.Str.{trim_start_matches}
use s3xc.Str.Cut.{find-Lacks}
use s3xc.Str.Split.{Lacks}
use s3xc.Maps.{get}
use s3xc.Server.S3Api.{SigV4Verifier, ClientCredentials}
use s3xc.Server.S3Api.Checks.{IsSigned, verify-IsSigned}
use s3xc.Proxy.Agree.Request.{received}
use s3xc.Proxy.Agree.Accepted.{Signs-verify}
use s3xc.Proxy.{path_style, ProxyClient, AuthSigner, anonymous, sig_v4}
use s3xc.Proxy.Target.{split_query, build_url}
use s3xc.Proxy.Sign.{sign_headers, host_val, prepare_request}
use s3xc.Proxy.Agree.Signing.{IsPart, sign_headers-Signs}

-- The client may sign if the server checks signatures, with keys that it has registered, and sends
-- unsigned requests to one that does not.
pub data CanSign : Option SigV4Verifier → AuthSigner → Type 0 where
  not_signed : CanSign none anonymous
  signed :
      (v : SigV4Verifier) (ak sk region : Text)
      → IsPart ak
      → IsPart region
      → get ak v.credentials ≡ some sk
      → CanSign (some v) (sig_v4 ak sk region)

-- A bucket and a key that stand in a URL as they are.
pub record IsName (bucket key : Text) : Type 0 where
  pub no_slash : trim_start_matches b'/' key ≡ key
  pub no_mark : Lacks b'?' key
  pub bytes : All IsPathByte (b'/' ∷ bucket ++ b'/' ∷ key)
  pub dots : NoDots (b'/' ∷ bucket ++ b'/' ∷ key)

module _ (http : Http) (crypto : Crypto) (cw : CryptoWorks crypto) (urls : Urls)
    (v : Option SigV4Verifier) (endpoint : urls.Url) where
  -- A server that checks signatures answers only requests that a registered key has signed.
  abbrev pub Admits : Option SigV4Verifier → Outgoing http urls → Type 0
  Admits none out = Unit
  Admits (some ver) out =
      (creds : ClientCredentials) × IsSigned http crypto cw ver
        (received urls out.method out.url out.headers) creds

  -- A request of S3 for an object, in path style, without a body.
  pub record IsRequest (method bucket key : Text) (out : Outgoing http urls) : Type 0 where
    pub method_lem : out.method ≡ method
    pub path_lem : urls.path out.url ≡ b'/' ∷ bucket ++ b'/' ∷ key
    pub query_lem : urls.query out.url ≡ none
    pub host_lem : urls.host_str out.url ≡ urls.host_str endpoint
    pub port_lem : urls.port out.url ≡ urls.port endpoint
    pub body_lem : out.body ≡ none
    pub stream_lem : out.stream ≡ none
    pub admitted : Admits v out

module _ (http : Http) (hw : HttpWorks http) (crypto : Crypto) (cw : CryptoWorks crypto)
    (urls : Urls) (uw : UrlWorks urls) where
  -- The text of a host and a port.
  abbrev host_text : Option Text → Option ℕ → Text
  host_text h p = elim p [ some n ↦ unwrap_or h [] ++ b':' ∷ print n | none ↦ unwrap_or h [] ]

  host_val-same :
      (a b : urls.Url)
      → urls.host_str a ≡ urls.host_str b
      → urls.port a ≡ urls.port b
      → host_val http crypto urls a ≡ host_val http crypto urls b
  host_val-same a b h p =
      ap (λ t. host_text t (urls.port a)) h ∙ ap (λ n. host_text (urls.host_str b) n) p

  split_query-Lacks : (key : Text) → Lacks b'?' key → split_query key ≡ (key, none)
  unfolding split_query
  split_query-Lacks key h = rw (split_query, find-Lacks key h) refl

  build_url-name :
      (c : ProxyClient) (endpoint : urls.Url) (bucket key : Text)
      → c.path_scheme ≡ path_style
      → urls.parse c.upstream_endpoint ≡ ok endpoint
      → IsName bucket key
      → build_url urls c (some bucket) key
        ≡ ok (urls.set_query none (urls.set_path (b'/' ∷ bucket ++ b'/' ∷ key) endpoint))
  unfolding build_url
  build_url-name c endpoint bucket key style parsed name =
      rw (split_query-Lacks key name.no_mark, parsed, style, name.no_slash) refl

  -- What signing adds, and that it leaves the range.
  record Signed (v : Option SigV4Verifier) (method : Text) (url : urls.Url) (h : http.HeaderMap)
      (r : Result http.HeaderMap) : Type 0 where
    headers : http.HeaderMap
    returns : r ≡ ok headers
    range_lem : http.get headers (codes "range") ≡ http.get h (codes "range")
    admitted :
        Admits http crypto cw urls v url v
          (record { method = method; url = url; headers = headers; body = none; stream = none })

  sign_headers-Signed :
      (v : Option SigV4Verifier) (signer : AuthSigner) (datetime method : Text) (url : urls.Url)
      (h : http.HeaderMap)
      → CanSign v signer
      → IsPart datetime
      → 8 ≤ length datetime
      → urls.query url ≡ none
      → Signed v method url h (sign_headers http crypto urls signer datetime method url h none)
  sign_headers-Signed _ _ datetime method url h not_signed d long none_asked =
      unfold sign_headers in record { headers = h; returns = refl; range_lem = refl; admitted = tt }
  sign_headers-Signed _ _ datetime method url h (signed v ak sk region a g there) d long
        none_asked =
      let s =
        sign_headers-Signs http hw crypto cw urls ak sk region datetime method url h none a g d
          long in
      record {
        headers = http.insert s.hashed (codes "authorization") s.value;
        returns = s.returns;
        range_lem = s.range_lem;
        admitted = (
          _,
          (verify-IsSigned http crypto cw v _ _).0 (
              Signs-verify http hw crypto cw urls v ak sk region datetime method url _ s a g d there
                (rw none_asked refl)),
        );
      }

  -- For a name that stands in a URL as it is, the client prepares the request of S3 for the object.
  pub prepare_request-IsRequest :
      (v : Option SigV4Verifier) (c : ProxyClient) (endpoint : urls.Url)
      (datetime method bucket key : Text) (headers : http.HeaderMap)
      → CanSign v c.signer
      → c.path_scheme ≡ path_style
      → urls.parse c.upstream_endpoint ≡ ok endpoint
      → All IsVisible (host_val http crypto urls endpoint)
      → IsName bucket key
      → IsPart datetime
      → 8 ≤ length datetime
      → (out : Outgoing http urls) × (prepare_request http crypto urls c datetime method
            (some bucket)
            key
            headers
            none
          ≡ ok out)
        × IsRequest http crypto cw urls v endpoint method bucket key out
        × (http.get out.headers (codes "range") ≡ http.get headers (codes "range"))
  unfolding prepare_request same_name
  prepare_request-IsRequest v c endpoint datetime method bucket key headers can style parsed visible
        name d long =
      let path = b'/' ∷ bucket ++ b'/' ∷ key in
      let placed = urls.set_path path endpoint in
      let url = urls.set_query none placed in
      let host = uw.query_host none placed ∙ uw.path_host path endpoint in
      let port = uw.query_port none placed ∙ uw.path_port path endpoint in
      let same_host : host_val http crypto urls url ≡ host_val http crypto urls endpoint =
        host_val-same url endpoint host port in
      let (hv, made, read) = hw.parse_lem (host_val http crypto urls url) (rw same_host visible) in
      let hosted = http.insert headers (codes "host") hv in
      let s =
        sign_headers-Signed v c.signer datetime method url hosted can d long
          (uw.query_none placed) in
      (
        record { method = method; url = url; headers = s.headers; body = none; stream = none },
        rw (build_url-name c endpoint bucket key style parsed name, made, s.returns) refl,
        record {
          method_lem = refl;
          path_lem =
              uw.query_path none placed
              ∙ uw.path_lem (bucket ++ b'/' ∷ key) endpoint name.bytes name.dots;
          query_lem = uw.query_none placed;
          host_lem = host;
          port_lem = port;
          body_lem = refl;
          stream_lem = refl;
          admitted = s.admitted;
        },
        s.range_lem ∙ hw.get_lem headers (codes "host") (codes "range") hv,
      )

module _ (http : Http) (crypto : Crypto) (urls : Urls) where
  -- Whatever is prepared has the method that it was prepared with.
  pub prepare_request-method :
      (c : ProxyClient) (datetime method : Text) (bucket : Option Text) (key : Text)
      (headers : http.HeaderMap) (body : Option Bytes) (out : Outgoing http urls)
      → prepare_request http crypto urls c datetime method bucket key headers body ≡ ok out
      → out.method ≡ method
  unfolding prepare_request
  prepare_request-method c datetime method bucket key headers body out e =
      let (url, built, e1) = bind_ok_inv (build_url urls c bucket key) _ out e in
      let (hv, parsed, e2) = bind_ok_inv (http.parse (host_val http crypto urls url)) _ out e1 in
      let (h, signed_ok, e3) =
        bind_ok_inv
          (sign_headers http crypto urls c.signer datetime method url
            (http.insert headers (codes "host") hv) body)
          _ out e2 in
      ap (λ o. o.method) (sym (is_ok _ out e3))
    where
      is_ok : (a b : Outgoing http urls) → ok a ≡ ok b → a ≡ b
      is_ok a b e = cc

pub range_header-IsVisible : (a b : ℕ) → All IsVisible (range_header a b)
unfolding range_header
range_header-IsVisible a b =
    All-append IsVisible (codes "bytes=") (print a ++ b'-' ∷ print (b - 1))
      (all_visible-IsVisible (codes "bytes=") (unfold all_visible in refl))
      (All-append IsVisible (print a) (b'-' ∷ print (b - 1))
        (IsVisible-IsDigit (print a) (print-IsDigit a))
        (inl (omega arith), IsVisible-IsDigit (print (b - 1)) (print-IsDigit (b - 1))))
