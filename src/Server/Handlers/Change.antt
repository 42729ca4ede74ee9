-- ===== src/Server/Handlers/Change.antt =====
-- `put_object_handler`, `delete_object_handler` and `fallback_proxy_handler` of
-- `src/server/handlers.rs`.
use s3xc.Prelude.{
  ℕ, ◌*◌, Bool, Option, none, some, List, [], ◌∷◌, ◌++◌, Bytes, Text, codes, take, length,
}
use s3xc.Io.{Result, ok, err, lift, catch, Io}
use s3xc.Io
use s3xc.Options
use s3xc.Options.{unwrap_or}
use s3xc.Str.{find, trim_start_matches}
use s3xc.Str.Split.{splitn2}
use s3xc.Str.Decimal.{print, parse_u64}
use s3xc.Utils.Errors.{internal, xml_declaration}
use s3xc.Utils.Percent.{percent_decode}
use s3xc.External.{Env, World, on_remote}
use s3xc.External.Http.{Http}
use s3xc.External.Url.{Incoming}
use s3xc.Cache.Coordinator.{CacheCoordinator, now_secs}
use s3xc.Cache.Drop.{drop_cache_for_object}
use s3xc.Cache.Write.{write_and_cache_object}
use s3xc.Cache.Copy.{copy_cache_object}
use s3xc.Server.S3Api.Params.{header_str}
use s3xc.Server.Handlers.{
  no_body, bytes, relayed, Response, Dates, format_http_date, Handler, ◌>>=◌, map_err, respond,
  plain, not_found_or_internal, insert_text, insert_parsed,
}

-- `CopyObjectResult`; the document of `format!`, with its line feeds.
unfoldable pub copy_result : (last_modified etag : Text) → Text
copy_result last_modified etag =
    xml_declaration
    ++ codes "<CopyObjectResult>"
    ++ 10 ∷ codes "   <LastModified>"
    ++ last_modified
    ++ codes "</LastModified>"
    ++ 10 ∷ codes "   <ETag>"
    ++ etag
    ++ codes "</ETag>"
    ++ 10 ∷ codes "</CopyObjectResult>"

-- The text before the first question mark.
unfoldable pub cut_query : Text → Text
cut_query s = elim (find b'?' s) [ some idx ↦ take idx s | none ↦ s ]

-- The bucket and the key of a copy source; the test on `parts.len()` is the pattern.
source_of : List Text → Option (Text × Text)
unfolding cut_query
source_of (src_bucket ∷ src_key ∷ []) = some (src_bucket, cut_query src_key)
source_of _ = none

unfoldable pub copy_source : (from_utf8_lossy : Bytes → Text) → Text → Option (Text × Text)
unfolding source_of percent_decode
copy_source from_utf8_lossy header =
    source_of (splitn2 b'/' (trim_start_matches b'/' (percent_decode from_utf8_lossy header)))

module _ (http : Http) (dates : Dates) (env : Env) (c : CacheCoordinator) where
  unfoldable pub copy_handler :
      (src_bucket src_key bucket key : Text) → Handler (World env) (Response http)
  unfolding copy_result insert_text
  copy_handler src_bucket src_key bucket key = do
    etag ← map_err internal (on_remote (env.upstream.copy_object src_bucket src_key bucket key))
    done_copying ← map_err internal (copy_cache_object env c src_bucket src_key bucket key)
    now ← plain (now_secs env)
    let xml_body = copy_result (format_http_date dates now) etag
    typed ←
        plain
          (lift (insert_text http (codes "content-type") (codes "application/xml") http.no_headers))
    sized ← plain (lift (insert_text http (codes "content-length") (print (length xml_body)) typed))
    respond (record { status = 200; headers = sized; body = bytes xml_body })

  -- An upload, through the cache; `closed` tells when the upload task has stopped.
  unfoldable pub upload_handler :
      (closed : ℕ → Bool)
      → http.HeaderMap
      → (bucket key : Text) → List (Result Bytes)
      → Handler (World env) (Response http)
  unfolding insert_text
  upload_handler closed headers bucket key body_stream = do
    let content_len =
        unwrap_or (Options.◌>>=◌ (header_str http headers (codes "content-length")) parse_u64) 0
    let content_type = header_str http headers (codes "content-type")
    etag ←
        map_err internal
          (write_and_cache_object env c bucket key closed body_stream content_len content_type)
    tagged ← plain (lift (insert_parsed http (codes "etag") (http.parse etag) http.no_headers))
    sized ← plain (lift (insert_text http (codes "content-length") (codes "0") tagged))
    respond (record { status = 200; headers = sized; body = no_body })

  -- A copy where the header names a bucket and a key, and an upload otherwise.
  unfoldable pub put_object_handler :
      (from_utf8_lossy : Bytes → Text) (closed : ℕ → Bool)
      → http.HeaderMap
      → (bucket key : Text) → List (Result Bytes)
      → Handler (World env) (Response http)
  unfolding copy_source copy_handler upload_handler
  put_object_handler from_utf8_lossy closed headers bucket key body_stream =
      elim (Options.◌>>=◌ (header_str http headers (codes "x-amz-copy-source"))
        (copy_source from_utf8_lossy)) [
          | some source ↦ copy_handler source.0 source.1 bucket key
          | none ↦ upload_handler closed headers bucket key body_stream
        ]

module _ (http : Http) (env : Env) (c : CacheCoordinator) where
  unfoldable pub delete_object_handler : (bucket key : Text) → Handler (World env) (Response http)
  delete_object_handler bucket key = do
    deleted ← map_err not_found_or_internal (on_remote (env.upstream.delete_object bucket key))
    dropped ← map_err internal (drop_cache_for_object env c bucket key)
    sized ← plain (lift (insert_text http (codes "content-length") (codes "0") http.no_headers))
    respond (record { status = 204; headers = sized; body = no_body })

-- What `axum` does for the fallback: `to_bytes` takes a body up to a limit, `from_u16` checks a
-- status, and `build` is the headers of a response builder, if it reports no error.
pub record Relay (http : Http) : Type 0 where
  pub to_bytes : List (Result Bytes) → ℕ → Result Bytes
  pub from_u16 : ℕ → Option ℕ
  pub build : List (Text × http.HeaderValue) → Option http.HeaderMap

module _ (http : Http) (relay : Relay http) (env : Env)
    (proxy_request : (method path_and_query : Text)
      → http.HeaderMap
      → Option Bytes
      → Io env.upstream.Remote (Incoming http)) where
  abbrev pub server_error : Response http
  server_error = record { status = 500; headers = http.no_headers; body = no_body }

  -- The answer of the other server, passed on.
  unfoldable pub relay_answer : Result (Incoming http) → Response http
  relay_answer (err e) = server_error
  relay_answer (ok proxy_res) = elim (relay.build (http.iter proxy_res.headers)) [
    | some headers ↦ record {
      status = unwrap_or (relay.from_u16 proxy_res.status) 500;
      headers = headers;
      body = relayed proxy_res.chunks;
    }
    | none ↦ server_error
  ]

  abbrev pub ok_bytes : Result Bytes → Option Bytes
  ok_bytes (ok b) = some b
  ok_bytes (err e) = none

  -- `req.into_body()` up to 10 MiB; a body that is longer or breaks off is left out.
  unfoldable pub fallback_proxy_handler :
      (method path_and_query : Text)
      → http.HeaderMap
      → List (Result Bytes)
      → Io (World env) (Response http)
  unfolding relay_answer
  fallback_proxy_handler method path_and_query headers body =
      let body_bytes = ok_bytes (relay.to_bytes body (10 * 1024 * 1024)) in
      Io.◌>>=◌ (catch (on_remote (proxy_request method path_and_query headers body_bytes)))
        λ proxy_res. Io.pure (relay_answer proxy_res)
