-- ===== src/Proxy/Generic.antt =====
-- `proxy_request` of `src/proxy/mod.rs`: a request that is passed on as it came, but for its
-- signature.
use s3xc.Prelude.{
  not, ◌&&◌, Option, none, some, List, [], ◌∷◌, ◌++◌, Bytes, Text, codes, text_eq, if◌then◌else◌,
  Bool,
}
use s3xc.Io.{Io, lift, ◌>>=◌}
use s3xc.Str.{starts_with, is_empty, trim_start_matches}
use s3xc.Str.Split.{splitn2}
use s3xc.External.Http.{Http, Crypto}
use s3xc.External.Url.{Urls, Incoming, Net}
use s3xc.Proxy.{ProxyClient}
use s3xc.Proxy.Target.{split_query}
use s3xc.Proxy.Objects.{Line, prepare, send}

-- The headers that are passed on.
unfoldable pub is_forwarded : Text → Bool
is_forwarded name_str =
    not (text_eq name_str (codes "host"))
    && not (text_eq name_str (codes "authorization"))
    && not (starts_with name_str (codes "x-amz-"))
    && not (text_eq name_str (codes "content-length"))

-- The bucket and the key of a path; the test on `parts` is the pattern. The query goes with the key.
abbrev with_query : Text → Option Text → Text
with_query key none = key
with_query key (some q) = key ++ b'?' ∷ q

address_of : List Text → Option Text → Option Text × Text
address_of [] query_part = (none, [])
address_of (bucket ∷ []) query_part =
    if is_empty bucket then (none, []) else (some bucket, with_query [] query_part)
address_of (bucket ∷ key ∷ more) query_part =
    if is_empty bucket then (none, []) else (some bucket, with_query key query_part)

unfoldable pub address : (path_and_query : Text) → Option Text × Text
unfolding split_query address_of
address path_and_query =
    let (path_part, query_part) = split_query path_and_query in
    address_of (splitn2 b'/' (trim_start_matches b'/' path_part)) query_part

module _ (http : Http) where
  unfoldable pub out_headers : http.HeaderMap → List (Text × http.HeaderValue) → http.HeaderMap
  unfolding is_forwarded
  out_headers out [] = out
  out_headers out (header ∷ headers) =
      out_headers (if is_forwarded header.0 then http.insert out header.0 header.1 else out) headers

module _ (http : Http) (crypto : Crypto) (urls : Urls) (net : Net http urls) (c : ProxyClient) where
  unfoldable pub proxy_request :
      (method path_and_query : Text) → http.HeaderMap → Option Bytes → Io (Line net) (Incoming http)
  unfolding out_headers address prepare send
  proxy_request method path_and_query headers body_bytes = do
    let out = out_headers http http.no_headers (http.iter headers)
    let (bucket, key_and_query) = address path_and_query
    m ← lift (net.from_bytes method)
    request ← prepare http crypto urls net c m bucket key_and_query out body_bytes
    send http crypto urls net c request
