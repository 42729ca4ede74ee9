-- ===== src/Server/Middleware/Whole.antt =====
-- The server on a signed GET: the check, the routes and the handler together.
use s3xc.Prelude.{
  ℕ, ◌+◌, ◌^◌, ◌≤◌, ◌<◌, ◌≡◌, refl, ap, some, Option, Bytes, Text, codes, All, length, text_eq,
}
use s3xc.Io.{Result, ok, Io}
use s3xc.External.{Env, World}
use s3xc.External.Works.{EnvWorks}
use s3xc.External.Remote.{Stored, UpstreamReads}
use s3xc.External.Http.{Http, HttpWorks, IsVisible, Crypto, CryptoWorks, Request}
use s3xc.External.Url.{Incoming}
use s3xc.Utils.Errors.{S3ErrorXml}
use s3xc.Cache.Coordinator.{CacheCoordinator}
use s3xc.Cache.Read.Fresh.{Knows}
use s3xc.Server.S3Api.Params.{header_str}
use s3xc.Server.Outcome.{done}
use s3xc.Server.S3Api.{SigV4Verifier, ClientCredentials}
use s3xc.Server.S3Api.Checks.{IsSigned, verify-IsSigned}
use s3xc.Server.Handlers.{Response, Dates, format_http_date}
use s3xc.Server.Handlers.Fetch.{get_object_handler}
use s3xc.Server.Handlers.Change.{Relay}
use s3xc.Server.Handlers.Asks.{Asks}
use s3xc.Server.Handlers.Serves.{Serves, get_object_handler-Serves}
use s3xc.Server.Middleware.{Routed, answered, s3_auth_middleware, object_route, route, app}

module _ (http : Http) (hw : HttpWorks http) (crypto : Crypto) (cw : CryptoWorks crypto)
    (dates : Dates) (relay : Relay http) (env : Env) (works : EnvWorks env)
    (up : UpstreamReads env.upstream) (from_utf8_lossy : Bytes → Text)
    (to_string : S3ErrorXml → Result Text)
    (proxy_request : (method path_and_query : Text)
      → http.HeaderMap
      → Option Bytes
      → Io env.upstream.Remote (Incoming http))
    (c : CacheCoordinator) where
  -- A signed GET runs the handler of GET.
  app-get_object_handler :
      (v : SigV4Verifier) (creds : ClientCredentials) (req : Request http) (routed : Routed http)
      (bucket key : Text) (answer : Response http) (w : World env)
      → IsSigned http crypto cw v req creds
      → req.method ≡ codes "GET"
      → routed.target ≡ some (bucket, key)
      → (get_object_handler http dates env c req.headers bucket key w).0 ≡ ok (done answer)
      → app http crypto dates relay env from_utf8_lossy to_string proxy_request c
          (some v)
          req
          routed
          w
        ≡ (ok (answered answer), (get_object_handler http dates env c req.headers bucket key w).1)
  unfolding app s3_auth_middleware route object_route text_eq
  app-get_object_handler v creds req routed bucket key answer w signed method target got =
      rw ((verify-IsSigned http crypto cw v req creds).1 signed, target, method, got) refl

  -- The server that has a verifier, on a GET for a bucket and a key that a registered key has
  -- signed, for a positive chunk size, an object upstream whose length and a chunk fit in 64 bits, a
  -- date that a header can carry, and a cache that knows nothing of the object or a version of it
  -- with chunks inside the recorded length (right ones, if the tag and the length are still the
  -- upstream ones): the answer has status 200 and the whole object if there is no `Range` header
  -- or `parse_range` reads no range in it, else status 206 and the range that `parse_range` reads,
  -- which lies in the object and may be empty. `Content-Length` is the length of that range,
  -- `Content-Range` on a 206 names its start, its end less one (0 for the end 0) and the object's
  -- length, and the client takes exactly the bytes of the range of the upstream object from the body.
  pub app-Serves :
      (v : SigV4Verifier) (creds : ClientCredentials) (req : Request http) (routed : Routed http)
      (bucket key : Text) (s : Stored) (w : World env)
      → IsSigned http crypto cw v req creds
      → req.method ≡ codes "GET"
      → routed.target ≡ some (bucket, key)
      → 0 < c.chunk_size
      → length s.bytes + c.chunk_size ≤ 2 ^ 64
      → All IsVisible (format_http_date dates s.meta.last_modified)
      → up.stored w.remote bucket key ≡ some s
      → Knows env works up c bucket key s w
      → let r =
          app http crypto dates relay env from_utf8_lossy to_string proxy_request c
            (some v)
            req
            routed
            w in
        (start end status : ℕ) × Asks
          (length s.bytes)
          (header_str http req.headers (codes "range"))
          start
          end
          status
        × (start ≤ end)
        × (end ≤ length s.bytes)
        × (answer : Response http) × (r.0 ≡ ok (answered answer))
        × Serves http hw dates env works up c bucket key s start end status answer r.1
  app-Serves v creds req routed bucket key s w signed method target pos small dated there knows =
      let (start, end, status, asks, ordered, inside, answer, got, serves) =
        get_object_handler-Serves http hw dates env works up c bucket key s w req.headers pos small
          dated there knows in
      let run =
        app-get_object_handler v creds req routed bucket key answer w signed method target got in
      (start, end, status, asks, ordered, inside, answer, ap (λ r. r.0) run, rw run serves)
