-- ===== src/Tests/Whole.antt =====
-- The server on a concrete signed request.
use s3xc.Prelude.{ℕ, ◌≤◌, ◌≡◌, refl, some, [], Bytes, Option, Text, false, codes, arith}
use s3xc.Io.{ok, err, error, Io}
use s3xc.External.Url.{Incoming}
use s3xc.Server.S3Api.Params.{header_str}
use s3xc.Server.S3Api.Checks.{IsSigned, verify-IsSigned}
use s3xc.Server.Handlers.{Response, no_body}
use s3xc.Server.Handlers.Change.{Relay}
use s3xc.Server.Handlers.Asks.{Asks}
use s3xc.Server.Handlers.Serves.{Serves}
use s3xc.Server.Middleware.{Routed, answered, app}
use s3xc.Server.Middleware.Whole.{app-Serves}
use s3xc.Tests.Store.{upstream_reads}
use s3xc.Tests.World.{env, works, empty, stored, coordinator, bucket, key}
use s3xc.Tests.Facts.{empty-Knows, hello_stored}
use s3xc.Tests.Web.{http, http_works, crypto, crypto_works, dates}
use s3xc.Tests.Auth.{verifier, signed, creds, accepts, to_string}
use s3xc.Tests.Serving.{date-IsVisible}

abbrev relay : Relay http
relay = record {
  to_bytes = λ body limit. ok [];
  from_u16 = λ status. some status;
  build = λ headers. some http.no_headers;
}

abbrev no_upstream :
    (method path_and_query : Text)
    → http.HeaderMap
    → Option Bytes
    → Io env.upstream.Remote (Incoming http)
no_upstream method path_and_query headers body r = (err (error (codes "unreachable")), r)

abbrev routed : Routed http
routed = record {
  target = some (bucket, key);
  path_and_query = codes "/b/dir/k:1";
  body = [];
  closed = λ n. false;
  not_allowed = record { status = 405; headers = http.no_headers; body = no_body };
}

signed-IsSigned : IsSigned http crypto crypto_works verifier (signed (codes "8")) creds
signed-IsSigned =
    (verify-IsSigned http crypto crypto_works verifier (signed (codes "8")) creds).0 accepts

app-Serves_example :
    let r =
      app http crypto dates relay env
        (λ b. b)
        to_string
        no_upstream
        coordinator
        (some verifier)
        (signed (codes "8"))
        routed
        empty in
    (start end status : ℕ) × Asks 11
      (header_str http (signed (codes "8")).headers (codes "range"))
      start
      end
      status
    × (start ≤ end)
    × (end ≤ 11)
    × (answer : Response http) × (r.0 ≡ ok (answered answer))
    × Serves http http_works dates env works upstream_reads coordinator bucket key stored start end
        status answer r.1
unfolding signed
app-Serves_example =
    app-Serves http http_works crypto crypto_works dates relay env works upstream_reads (λ b. b)
      to_string no_upstream coordinator verifier creds (signed (codes "8")) routed bucket key stored
      empty signed-IsSigned refl refl (omega arith) (omega arith) date-IsVisible hello_stored
      empty-Knows
