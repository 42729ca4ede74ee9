-- ===== src/Proxy/Reads.antt =====
-- What the client of `src/proxy/mod.rs` needs of the server it sends requests to.
pub mod Requests
pub mod Sent
pub mod Instance
use s3xc.Prelude.{
  ℕ, not, if◌then◌else◌, ◌+◌, ◌-◌, ◌++◌, ◌∷◌, All-append, arith, ◌≤◌, ◌<◌, ◌≡◌, ◌⊎◌, refl, sym, ap,
  ◌∙◌, inl, inr, true, false, Option, none, some, List, Bytes, Text, codes, All, length, concat,
  map, slice, Bool-cases, Option-cases, ◌==◌,
}
use s3xc.Prelude.Int.{ℤ}
use s3xc.Io.{
  Result, ok, err, error, panic, diverges, Io, raise, pure, continue, Result-cases, unwrap,
}
use s3xc.Options.{◌>>=◌}
use s3xc.Str.Decimal.{print, print-IsDigit, parse_u64, parse_u64-print, u64_max}
use s3xc.External.{Upstream}
use s3xc.External.Http.{Http, HttpWorks, IsVisible, Crypto, CryptoWorks}
use s3xc.External.Http.Visible.{IsVisible-IsDigit, all_visible, all_visible-IsVisible}
use s3xc.External.Remote.{Stored, UpstreamReads}
use s3xc.External.Url.{UrlWorks, IsPathByte, NoDots, Urls, Outgoing, Incoming, Net}
use s3xc.Cache.Read.{range_header}
use s3xc.Server.S3Api.Params.{header_str}
use s3xc.Str.{trim_start_matches}
use s3xc.Str.Cut.{find-Lacks}
use s3xc.Str.Split.{Lacks}
use s3xc.Maps.{get}
use s3xc.Server.S3Api.{SigV4Verifier, ClientCredentials}
use s3xc.Server.S3Api.Checks.{IsSigned, verify-IsSigned}
use s3xc.Proxy.Agree.Request.{received}
use s3xc.Proxy.Agree.Accepted.{Signs-verify}
use s3xc.Proxy.{path_style, ProxyClient, AuthSigner, anonymous, sig_v4}
use s3xc.Proxy.Target.{split_query, build_url}
use s3xc.Proxy.Sign.{sign_headers, host_val, prepare_request}
use s3xc.Proxy.Agree.Signing.{IsPart, Signs, sign_headers-Signs}
use s3xc.Proxy.Reads.Requests.{IsRequest}
use s3xc.Proxy.Objects.{
  is_success, Line, prepare, send, or_now, metadata_of, head_answer, head_object,
  get_object_range_stream, upstream,
}

module _ (http : Http) (urls : Urls) (net : Net http urls) where
  -- The headers of an answer to HEAD.
  pub record Tells (s : Stored) (res : Incoming http) : Type 0 where
    pub success : is_success res.status ≡ true
    pub length_header :
        header_str http res.headers (codes "content-length") ≡ some (print (length s.bytes))
    pub type_header : header_str http res.headers (codes "content-type") ≡ s.meta.content_type
    pub etag_header : header_str http res.headers (codes "etag") ≡ s.meta.etag
    pub date_header :
        (header_str http res.headers (codes "last-modified") >>= net.from_rfc2822)
        ≡ some s.meta.last_modified

module _ (http : Http) (crypto : Crypto) (cw : CryptoWorks crypto) (urls : Urls)
    (net : Net http urls) (v : Option SigV4Verifier) (endpoint : urls.Url) where
  -- The server behind the network, as S3 is documented, where it reports no error. It looks at the
  -- request alone: at its method, its path and its range, and, if it checks signatures, at those. HEAD
  -- tells of the object at a path, GET of a range gives the bytes of the range, and neither changes an
  -- object. The clock gives texts that are dates.
  pub record NetWorks : Type 0 where
    pub stored : net.State → Text → Text → Option Stored
    pub length_lem :
        (st : net.State) (bucket key : Text) (s : Stored)
        → stored st bucket key ≡ some s
        → (s.meta.content_length ≡ length s.bytes) × (length s.bytes ≤ u64_max)
    pub head_lem :
        (st : net.State) (bucket key : Text) (s : Stored) (out : Outgoing http urls)
        → stored st bucket key ≡ some s
        → IsRequest http crypto cw urls v endpoint (codes "HEAD") bucket key out
        → (res : Incoming http) × ((net.send out st).0 ≡ ok res) × Tells http urls net s res
    pub head_keeps :
        (st : net.State) (out : Outgoing http urls)
        → out.method ≡ codes "HEAD"
        → stored (net.send out st).1 ≡ stored st
    pub range_lem :
        (st : net.State) (bucket key : Text) (s : Stored) (a b : ℕ) (out : Outgoing http urls)
        → stored st bucket key ≡ some s
        → a < b
        → b ≤ length s.bytes
        → IsRequest http crypto cw urls v endpoint (codes "GET") bucket key out
        → header_str http out.headers (codes "range")
          ≡ some (codes "bytes=" ++ (print a ++ b'-' ∷ print (b - 1)))
        → (res : Incoming http) × (pieces : List Bytes) × ((net.send out st).0 ≡ ok res)
          × (is_success res.status ≡ true)
          × (res.chunks ≡ map ok pieces)
          × (concat pieces ≡ slice a b s.bytes)
    pub get_keeps :
        (st : net.State) (out : Outgoing http urls)
        → out.method ≡ codes "GET"
        → stored (net.send out st).1 ≡ stored st
    pub clock_lem : (n : ℕ) → IsPart (net.now_text n) × (8 ≤ length (net.now_text n))
