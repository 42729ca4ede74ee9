-- ===== src/Proxy/Reads/Instance.antt =====
-- The client of `src/proxy/mod.rs` in front of an S3 server is the upstream store that the cache
-- relies on.
use s3xc.Prelude.{
  refl, Option, All, ℕ, ◌∙◌, ◌+◌, ◌≤◌, ◌<◌, ◌≡◌, ap, none, some, List, Bytes, Text, codes, length,
  concat, map, slice,
}
use s3xc.Io.{ok}
use s3xc.External.Http.{Http, HttpWorks, same_name, Crypto, CryptoWorks}
use s3xc.External.Remote.{Stored, UpstreamReads}
use s3xc.External.Url.{Urls, Outgoing, Net}
use s3xc.Cache.Read.{range_header}
use s3xc.Proxy.{ProxyClient}
use s3xc.Proxy.Sign.{prepare_request}
use s3xc.Proxy.Objects.{Line, head_object, get_object_range_stream, upstream}
use s3xc.External.Http.{IsVisible}
use s3xc.External.Url.{UrlWorks}
use s3xc.Server.S3Api.{SigV4Verifier}
use s3xc.Server.S3Api.Params.{header_str}
use s3xc.Proxy.{path_style}
use s3xc.Proxy.Sign.{host_val}
use s3xc.Proxy.Reads.Requests.{
  CanSign, IsName, IsRequest, prepare_request-IsRequest, range_header-IsVisible,
}
use s3xc.Proxy.Reads.{NetWorks}
use s3xc.Proxy.Reads.Sent.{
  head_answer_returns, head_object_sent, head_object_state, range_sent, range_state,
}

-- A client of path-style addresses for a server at `endpoint`: it may sign for that server, and a
-- header carries its host.
pub record Fits (http : Http) (crypto : Crypto) (urls : Urls) (c : ProxyClient)
    (v : Option SigV4Verifier) (endpoint : urls.Url) : Type 0 where
  pub can : CanSign v c.signer
  pub style : c.path_scheme ≡ path_style
  pub parsed : urls.parse c.upstream_endpoint ≡ ok endpoint
  pub visible : All IsVisible (host_val http crypto urls endpoint)

module _ (http : Http) (hw : HttpWorks http) (crypto : Crypto) (cw : CryptoWorks crypto)
    (urls : Urls) (uw : UrlWorks urls) (net : Net http urls) (c : ProxyClient)
    (v : Option SigV4Verifier) (endpoint : urls.Url) (fits : Fits http crypto urls c v endpoint)
    (works : NetWorks http crypto cw urls net v endpoint) where
  prepared :
      (method bucket key : Text) (headers : http.HeaderMap) (l : Line net)
      → IsName bucket key
      → (out : Outgoing http urls) × (prepare_request http crypto urls c
            (net.now_text l.readings)
            method
            (some bucket)
            key
            headers
            none
          ≡ ok out)
        × IsRequest http crypto cw urls v endpoint method bucket key out
        × (http.get out.headers (codes "range") ≡ http.get headers (codes "range"))
  prepared method bucket key headers l name =
      let (d, long) = works.clock_lem l.readings in
      prepare_request-IsRequest http hw crypto cw urls uw v c endpoint (net.now_text l.readings)
        method bucket key headers fits.can fits.style fits.parsed fits.visible name d long

  head_object_returns :
      (bucket key : Text) (l : Line net) (s : Stored)
      → IsName bucket key
      → works.stored l.state bucket key ≡ some s
      → (head_object http crypto urls net c bucket key l).0 ≡ ok s.meta
  head_object_returns bucket key l s name held =
      let (out, e, asked, _) = prepared (codes "HEAD") bucket key http.no_headers l name in
      let (res, sent, tells) = works.head_lem l.state bucket key s out held asked in
      let (size, small) = works.length_lem l.state bucket key s held in
      rw (head_object_sent http crypto urls net c bucket key l out e, sent)
        (head_answer_returns http crypto urls net c s res
          (record { state = (net.send out l.state).1; readings = l.readings + 1 }) size small tells)

  range_returns :
      (bucket key : Text) (l : Line net) (s : Stored) (a b : ℕ)
      → IsName bucket key
      → works.stored l.state bucket key ≡ some s
      → a < b
      → b ≤ length s.bytes
      → (pieces : List Bytes) × ((get_object_range_stream http crypto urls net c bucket key
            (range_header a b)
            l).0
          ≡ ok (map ok pieces))
        × (concat pieces ≡ slice a b s.bytes)
  range_returns bucket key l s a b name held lo hi =
      let (hv, p, read) = hw.parse_lem (range_header a b) (range_header-IsVisible a b) in
      let headers = http.insert http.no_headers (codes "range") hv in
      let (out, e, asked, kept) = prepared (codes "GET") bucket key headers l name in
      let ranged : header_str http out.headers (codes "range") ≡ some (range_header a b) =
        unfold same_name in
        rw (kept, hw.get_lem http.no_headers (codes "range") (codes "range") hv) read in
      let (res, pieces, sent, good, chunks, whole) =
        works.range_lem l.state bucket key s a b out held lo hi asked
          (ranged ∙ unfold range_header in refl) in
      (
        pieces,
        rw
            (
              range_sent http crypto urls net c bucket key (range_header a b) hv l out p e,
              sent,
              good,
            )
            (ap ok chunks),
        whole,
      )

  -- For a client of path-style addresses that sends unsigned requests to a server that checks no
  -- signatures, or signs with keys that the server has registered, for a bucket and a key that stand
  -- in a URL as they are, and a server that answers the requests of S3 by their method, path, range and
  -- signature: HEAD of a stored object returns its metadata, a GET of a range within the object behind
  -- it returns pieces that are the bytes of the range, and the server stores what it stored.
  pub get_object_range_stream-slice :
      (bucket key : Text) (l : Line net) (s : Stored) (a b : ℕ)
      → IsName bucket key
      → works.stored l.state bucket key ≡ some s
      → a < b
      → b ≤ length s.bytes
      → let head = head_object http crypto urls net c bucket key l in
        let body =
          get_object_range_stream http crypto urls net c bucket key (range_header a b) head.1 in
        (head.0 ≡ ok s.meta)
        × ((pieces : List Bytes) × (body.0 ≡ ok (map ok pieces))
            × (concat pieces ≡ slice a b s.bytes))
        × (works.stored body.1.state ≡ works.stored l.state)
  get_object_range_stream-slice bucket key l s a b name held lo hi =
      let l' = (head_object http crypto urls net c bucket key l).1 in
      let kept =
        head_object_state http crypto urls net c works.stored works.head_keeps bucket key l in
      (
        head_object_returns bucket key l s name held,
        range_returns bucket key l' s a b name (ap (λ f. f bucket key) kept ∙ held) lo hi,
        range_state http crypto urls net c works.stored works.get_keeps bucket key
              (range_header a b) l'
            ∙ kept,
      )

  -- Where all objects have such names, the client is the upstream store that the cache relies on.
  upstream_reads :
      ((st : net.State) (bucket key : Text) (s : Stored)
        → works.stored st bucket key ≡ some s
        → IsName bucket key)
      → UpstreamReads (upstream http crypto urls net c)
  unfolding upstream
  upstream_reads names = record {
    stored = λ l. works.stored l.state;
    head_lem = λ l bucket key s held.
        head_object_returns bucket key l s (names l.state bucket key s held) held;
    length_lem = λ l bucket key s held. (works.length_lem l.state bucket key s held).0;
    head_keeps = λ l bucket key.
        head_object_state http crypto urls net c works.stored works.head_keeps bucket key l;
    range_lem = λ l bucket key s a b held lo hi.
        range_returns bucket key l s a b (names l.state bucket key s held) held lo hi;
    range_keeps = λ l bucket key header.
        range_state http crypto urls net c works.stored works.get_keeps bucket key header l;
  }
