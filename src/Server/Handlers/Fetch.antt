-- ===== src/Server/Handlers/Fetch.antt =====
-- `head_object_handler` and `get_object_handler` of `src/server/handlers.rs`.
use s3xc.Prelude.{ℕ, ◌-◌, Option, none, some, ◌++◌, ◌∷◌, Text, codes, ◌==◌, if◌then◌else◌}
use s3xc.Io.{Result, lift, ok}
use s3xc.Checked
use s3xc.Options
use s3xc.Str.Decimal.{print}
use s3xc.Utils.Errors.{internal}
use s3xc.External.{Env, World}
use s3xc.External.Http.{Http}
use s3xc.Cache.Metadata.Types.{ObjectMetadata}
use s3xc.Cache.Coordinator.{CacheCoordinator}
use s3xc.Cache.Drop.{get_object_metadata}
use s3xc.Cache.Read.{read_range}
use s3xc.Server.Range.{parse_range}
use s3xc.Server.Handlers.{
  no_body, stream, Response, Dates, format_http_date, Handler, ◌>>=◌, map_err, respond, plain,
  not_found_or_internal, insert_text, insert_valid, cache_status,
}

module _ (http : Http) (dates : Dates) where
  -- The headers of both answers that tell of the object.
  unfoldable pub object_headers : ObjectMetadata → http.HeaderMap → Result http.HeaderMap
  unfolding insert_valid insert_text format_http_date
  object_headers meta headers =
      Checked.◌>>=◌ (insert_valid http (codes "content-type") meta.content_type headers) λ typed.
        Checked.◌>>=◌ (insert_valid http (codes "etag") meta.etag typed) λ tagged.
          insert_text http (codes "last-modified") (format_http_date dates meta.last_modified)
            tagged

  -- The order of the insertions is the source's; no two are of one name.
  unfoldable pub head_headers : ObjectMetadata → Result http.HeaderMap
  unfolding object_headers insert_text
  head_headers meta =
      Checked.◌>>=◌ (insert_text http (codes "accept-ranges") (codes "bytes") http.no_headers)
        λ ranged.
          Checked.◌>>=◌
            (insert_text http (codes "content-length") (print meta.content_length) ranged)
            λ sized. object_headers meta sized

  -- `bytes {start}-{end - 1}/{file_size}`; `saturating_sub` is `-` on ℕ.
  abbrev pub content_range : (start end file_size : ℕ) → Text
  content_range start end file_size =
      codes "bytes " ++ (print start ++ (b'-' ∷ print (end - 1) ++ b'/' ∷ print file_size))

  abbrev pub with_range : (status start end file_size : ℕ) → http.HeaderMap → Result http.HeaderMap
  with_range status start end file_size headers =
      if status == 206
      then insert_text http (codes "content-range") (content_range start end file_size) headers
      else ok headers

  unfoldable pub get_headers : ObjectMetadata → (status start end : ℕ) → Result http.HeaderMap
  unfolding object_headers insert_text
  get_headers meta status start end =
      Checked.◌>>=◌ (insert_text http (codes "accept-ranges") (codes "bytes") http.no_headers)
        λ ranged. Checked.◌>>=◌ (object_headers meta ranged) λ described.
          Checked.◌>>=◌ (insert_text http (codes "content-length") (print (end - start)) described)
            λ sized. with_range status start end meta.content_length sized

-- The range of an answer, and its status.
abbrev pub span_of : Option (ℕ × ℕ) → ℕ → ℕ × ℕ × ℕ
span_of (some range) file_size = (range.0, range.1, 206)
span_of none file_size = (0, file_size, 200)

module _ (http : Http) where
  -- The range that the request asks for, by the size of the object.
  unfoldable pub requested : http.HeaderMap → (file_size : ℕ) → ℕ × ℕ × ℕ
  requested headers_in file_size =
      span_of
        (Options.◌>>=◌ (Options.◌>>=◌ (http.get headers_in (codes "range")) http.to_str)
          λ r_str. parse_range r_str file_size)
        file_size

module _ (http : Http) (dates : Dates) (env : Env) (c : CacheCoordinator) where
  unfoldable pub head_object_handler : (bucket key : Text) → Handler (World env) (Response http)
  unfolding head_headers cache_status not_found_or_internal
  head_object_handler bucket key = do
    meta ← map_err not_found_or_internal (get_object_metadata env c bucket key)
    headers ← plain (lift (head_headers http dates meta))
    status ← plain (cache_status env bucket key)
    all ← plain (lift (insert_text http (codes "X-S3XC-CACHED") status headers))
    respond (record { status = 200; headers = all; body = no_body })

  unfoldable pub get_object_handler :
      http.HeaderMap → (bucket key : Text) → Handler (World env) (Response http)
  get_object_handler headers_in bucket key = do
    meta ← map_err not_found_or_internal (get_object_metadata env c bucket key)
    let (start, end, status_code) = requested http headers_in meta.content_length
    futs ← map_err internal (read_range env c bucket key start end)
    headers ← plain (lift (get_headers http dates meta status_code start end))
    status ← plain (cache_status env bucket key)
    all ← plain (lift (insert_text http (codes "X-S3XC-CACHED") status headers))
    respond (record { status = status_code; headers = all; body = stream futs })
