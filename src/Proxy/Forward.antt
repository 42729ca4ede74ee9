-- ===== src/Proxy/Forward.antt =====
-- Where a request goes that `proxy_request` of `src/proxy/mod.rs` passes on.
use s3xc.Prelude.{ℕ, All, ◌∙◌, ◌≡◌, refl, some, ◌∷◌, ◌++◌, Text, codes, All-append, ◌≢◌, arith}
use s3xc.Io.{ok}
use s3xc.Str.Cut.{find-append, cut_at, trim_slash, trim_none}
use s3xc.Str.Split.{Lacks, splitn2-append}
use s3xc.External.Url.{Urls, UrlWorks, IsPathByte, NoDots, IsQueryByte}
use s3xc.Proxy.{ProxyClient, path_style}
use s3xc.Proxy.Target.{split_query, build_url}
use s3xc.Proxy.Generic.{address}

-- A text is cut at its first question mark.
pub split_query-append : (s t : Text) → Lacks b'?' s → split_query (s ++ b'?' ∷ t) ≡ (s, some t)
unfolding split_query
split_query-append s t h =
    rw (split_query, find-append s t h, (cut_at s (b'?' ∷ t)).0, (cut_at s t).1) refl

mark : Lacks b'?' (codes "/")
mark = ground arith

-- The bucket is in front of the first slash, and the query goes with the key.
address-append :
    (b k : ℕ) (bucket key query : Text)
    → Lacks b'/' (b ∷ bucket)
    → Lacks b'?' (b ∷ bucket)
    → Lacks b'?' (k ∷ key)
    → address ((b'/' ∷ (b ∷ bucket) ++ b'/' ∷ k ∷ key) ++ b'?' ∷ query)
      ≡ (some (b ∷ bucket), (k ∷ key) ++ b'?' ∷ query)
unfolding address
address-append b k bucket key query no_slash no_mark no_mark' =
    let path_lacks : Lacks b'?' (b'/' ∷ (b ∷ bucket) ++ b'/' ∷ k ∷ key) =
      (mark.0, All-append (λ x. x ≢ b'?') (b ∷ bucket) _ no_mark (mark.0, no_mark')) in
    rw
      (
        split_query-append (b'/' ∷ (b ∷ bucket) ++ b'/' ∷ k ∷ key) query path_lacks,
        trim_slash ((b ∷ bucket) ++ b'/' ∷ k ∷ key),
        trim_none b (bucket ++ b'/' ∷ k ∷ key) no_slash.0,
        splitn2-append b'/' (b ∷ bucket) (k ∷ key) no_slash,
      )
      refl

address-set :
    (urls : Urls) (client : ProxyClient) (endpoint : urls.Url) (b k : ℕ) (bucket key query : Text)
    → client.path_scheme ≡ path_style
    → urls.parse client.upstream_endpoint ≡ ok endpoint
    → Lacks b'/' (b ∷ bucket)
    → Lacks b'?' (b ∷ bucket)
    → k ≢ b'/'
    → Lacks b'?' (k ∷ key)
    → let path = b'/' ∷ (b ∷ bucket) ++ b'/' ∷ k ∷ key in
      let target = address (path ++ b'?' ∷ query) in
      (target.0 ≡ some (b ∷ bucket))
      × (build_url urls client target.0 target.1
          ≡ ok (urls.set_query (some query) (urls.set_path path endpoint)))
unfolding build_url
address-set urls client endpoint b k bucket key query style parsed no_slash no_mark first no_mark' =
    rw
      (
        address-append b k bucket key query no_slash no_mark no_mark',
        parsed,
        style,
        split_query-append (k ∷ key) query no_mark',
        trim_none k key first,
      )
      (refl, refl)

-- A path of a bucket and a key, and a query, that need no coding in a URL are passed on as they
-- came, for path-style addresses and a key that does not begin with a slash: the bucket is found, and
-- the URL that is built has that path and that query, and the host and the port of the endpoint.
pub build_url-address :
    (urls : Urls) (works : UrlWorks urls) (client : ProxyClient) (endpoint : urls.Url) (b k : ℕ)
    (bucket key query : Text)
    → client.path_scheme ≡ path_style
    → urls.parse client.upstream_endpoint ≡ ok endpoint
    → Lacks b'/' (b ∷ bucket)
    → Lacks b'?' (b ∷ bucket)
    → k ≢ b'/'
    → Lacks b'?' (k ∷ key)
    → All IsPathByte (b'/' ∷ (b ∷ bucket) ++ b'/' ∷ k ∷ key)
    → NoDots (b'/' ∷ (b ∷ bucket) ++ b'/' ∷ k ∷ key)
    → All IsQueryByte query
    → let path = b'/' ∷ (b ∷ bucket) ++ b'/' ∷ k ∷ key in
      let target = address (path ++ b'?' ∷ query) in
      (target.0 ≡ some (b ∷ bucket))
      × ((url : urls.Url) × (build_url urls client target.0 target.1 ≡ ok url)
          × (urls.path url ≡ path)
          × (urls.query url ≡ some query)
          × (urls.host_str url ≡ urls.host_str endpoint)
          × (urls.port url ≡ urls.port endpoint))
build_url-address urls works client endpoint b k bucket key query style parsed no_slash no_mark
      first no_mark' bytes dots marks =
    let path = b'/' ∷ (b ∷ bucket) ++ b'/' ∷ k ∷ key in
    let placed = urls.set_path path endpoint in
    let (found, set) =
      address-set urls client endpoint b k bucket key query style parsed no_slash no_mark first
        no_mark' in
    (
      found,
      (
        urls.set_query (some query) placed,
        set,
        works.query_path (some query) placed
            ∙ works.path_lem ((b ∷ bucket) ++ b'/' ∷ k ∷ key) endpoint bytes dots,
        works.query_lem query placed marks,
        works.query_host (some query) placed ∙ works.path_host path endpoint,
        works.query_port (some query) placed ∙ works.path_port path endpoint,
      ),
    )
