-- ===== src/Tests/Serving.antt =====
-- The handlers at concrete inputs.
use s3xc.Prelude.{ℕ, ◌≡◌, ◌≤◌, refl, none, some, [], ◌∷◌, ◌++◌, Text, codes, All, arith, slice}
use s3xc.Io.{ok, err, error}
use s3xc.External.Http.{IsVisible}
use s3xc.Cache.Keys.{object_key}
use s3xc.Cache.Drop.Laws.{Drops}
use s3xc.Cache.Flight.Download.{
  IsDownloaded, download_and_cache_chunk, download_and_cache_chunk-IsDownloaded,
}
use s3xc.Str.Split.{Lacks}
use s3xc.Server.S3Api.Params.{header_str}
use s3xc.Server.Outcome.{done, failed}
use s3xc.Server.Handlers.{Response, format_http_date, not_found_or_internal}
use s3xc.Server.Handlers.Fetch.{get_object_handler}
use s3xc.Server.Handlers.Asks.{Asks}
use s3xc.Server.Handlers.Serves.{Serves, get_object_handler-Serves}
use s3xc.Server.Handlers.Change.{delete_object_handler, copy_source}
use s3xc.Server.Handlers.Deletes.{after_delete, delete_object_handler-Drops}
use s3xc.Server.Handlers.Copies.{copy_header, copy_source-copy_header}
use s3xc.Proxy.{ProxyClient, anonymous, path_style}
use s3xc.Proxy.Target.{build_url}
use s3xc.Proxy.Generic.{address}
use s3xc.Proxy.Forward.{build_url-address}
use s3xc.Tests.Store.{upstream_reads}
use s3xc.Tests.World.{env, works, hello, empty, warm, stored, coordinator, bucket, key}
use s3xc.Tests.Facts.{warm_known, empty-Knows, hello_stored}
use s3xc.Tests.Web.{
  url_works, http, http_works, urls, dates, visible, visible_text, visible_text-IsVisible,
}

-- A request for the bytes 3 to 8.
abbrev headers : http.HeaderMap
unfolding http
headers = (codes "range", codes "bytes=3-8") ∷ []

pub date-IsVisible : All IsVisible (format_http_date dates stored.meta.last_modified)
unfolding format_http_date visible_text visible
date-IsVisible = visible_text-IsVisible (codes "Wed, 25 Nov 2026 16:00:00 GMT") refl

get_object_handler-Serves_example :
    (start end status : ℕ) × Asks 11 (header_str http headers (codes "range")) start end status
    × (start ≤ end)
    × (end ≤ 11)
    × (answer : Response http) × ((get_object_handler http dates env coordinator headers bucket key
          empty).0
        ≡ ok (done answer))
    × Serves http http_works dates env works upstream_reads coordinator bucket key stored start end
        status answer
        (get_object_handler http dates env coordinator headers bucket key empty).1
get_object_handler-Serves_example =
    get_object_handler-Serves http http_works dates env works upstream_reads coordinator bucket key
      stored empty headers (omega arith) (omega arith) date-IsVisible hello_stored empty-Knows

delete_object_handler-Drops_example :
    ((env.upstream.delete_object bucket key warm.remote).0 ≡ ok tt
      → (answer : Response http) × ((delete_object_handler http env coordinator bucket key warm).0
          ≡ ok (done answer))
        × (answer.status ≡ 204)
        × Drops env works coordinator
            (object_key bucket key)
            11
            (after_delete http http_works env works coordinator bucket key warm)
            (ok tt, (delete_object_handler http env coordinator bucket key warm).1))
    × ((t : Text)
        → (env.upstream.delete_object bucket key warm.remote).0 ≡ err (error t)
        → delete_object_handler http env coordinator bucket key warm ≡ (
          ok (failed (not_found_or_internal (error t))),
          after_delete http http_works env works coordinator bucket key warm,
        ))
delete_object_handler-Drops_example =
    delete_object_handler-Drops http http_works env works coordinator bucket key warm stored.meta
      (omega arith) warm_known

download_and_cache_chunk-IsDownloaded_example :
    IsDownloaded env works upstream_reads coordinator bucket key
      (object_key bucket key)
      stored
      1
      (slice 4 8 hello)
      (download_and_cache_chunk env coordinator bucket key (object_key bucket key) 1 4 8 empty)
download_and_cache_chunk-IsDownloaded_example =
    download_and_cache_chunk-IsDownloaded env works upstream_reads coordinator bucket key
      (object_key bucket key) stored 1 4 8 empty (omega arith) (omega arith) (omega arith)
      hello_stored

-- A key with a question mark, of which the front is copied.
copy_source-copy_header_example :
    (Lacks b'?' (codes "a b?c")
      → copy_source (λ b. b) (copy_header (codes "src") (codes "a b?c"))
        ≡ some (codes "src", codes "a b?c"))
    × ((front rest : Text)
        → codes "a b?c" ≡ front ++ b'?' ∷ rest
        → Lacks b'?' front
        → copy_source (λ b. b) (copy_header (codes "src") (codes "a b?c"))
          ≡ some (codes "src", front))
copy_source-copy_header_example =
    copy_source-copy_header (λ b. b) b's' (codes "rc") (codes "a b?c") (ground arith) (ground arith)
      (ground arith) refl

abbrev pub client : ProxyClient
client = record {
  signer = anonymous;
  path_scheme = path_style;
  upstream_endpoint = codes "up";
  upstream_region = codes "eu";
}

build_url-address_example :
    let target = address (codes "/b/k/l" ++ b'?' ∷ codes "uploads") in
    (target.0 ≡ some (codes "b"))
    × ((url : urls.Url) × (build_url urls client target.0 target.1 ≡ ok url)
        × (urls.path url ≡ codes "/b/k/l")
        × (urls.query url ≡ some (codes "uploads"))
        × (urls.host_str url ≡ some (codes "up"))
        × (urls.port url ≡ none))
build_url-address_example =
    build_url-address urls url_works client (codes "up", codes "/", none) b'b' b'k' [] (codes "/l")
      (codes "uploads") refl refl (ground arith) (ground arith) (λ e. omega arith) (ground arith)
      (ground arith) (ground arith) (ground arith)
