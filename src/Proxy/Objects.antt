-- ===== src/Proxy/Objects.antt =====
-- The operations on objects of `ProxyClient` in `src/proxy/mod.rs`, and the client as the upstream
-- store of the cache.
use s3xc.Prelude.{
  ℕ, ◌+◌, Bool, not, ◌&&◌, Option, none, some, List, [], ◌∷◌, ◌++◌, Bytes, Text, codes, leb, ltb,
  ◌==◌, if◌then◌else◌,
}
use s3xc.Prelude.Int.{ℤ}
use s3xc.Io.{error, Result, ok, err, unwrap, Io, pure, raise, lift, ◌>>=◌, ◌>>◌}
use s3xc.Options
use s3xc.Options.{unwrap_or}
use s3xc.Str.Decimal.{print, parse_u64}
use s3xc.External.{Upstream}
use s3xc.External.Http.{Http, Crypto}
use s3xc.External.Url.{Urls, Outgoing, Incoming, Net}
use s3xc.Utils.Percent.{s3_percent_encode}
use s3xc.Cache.Metadata.Types.{ObjectMetadata}
use s3xc.Proxy.{ProxyClient}
use s3xc.Proxy.Sign.{prepare_request}
use s3xc.Proxy.Target.{build_url}
use s3xc.Checked

-- `status.is_success()`
unfoldable pub is_success : ℕ → Bool
is_success status = leb 200 status && ltb status 300

-- The network, and the number of readings of the clock.
pub record Line {http : Http} {urls : Urls} (net : Net http urls) : Type 0 where
  pub state : net.State
  pub readings : ℕ

module _ (http : Http) (crypto : Crypto) (urls : Urls) (net : Net http urls) (c : ProxyClient) where
  -- `prepare_request`, which reads the clock.
  unfoldable pub prepare :
      (method : Text) (bucket : Option Text) (key_and_query : Text)
      → http.HeaderMap
      → Option Bytes
      → Io (Line net) (Outgoing http urls)
  unfolding prepare_request
  prepare method bucket key_and_query headers body_bytes s = (
    prepare_request http crypto urls c (net.now_text s.readings) method bucket key_and_query headers
        body_bytes,
    record s { readings = s.readings + 1 },
  )

  unfoldable pub send : Outgoing http urls → Io (Line net) (Incoming http)
  send out s = ((net.send out s.state).0, record s { state = (net.send out s.state).1 })

  -- A header of an answer, as a text.
  abbrev pub answer_str : Incoming http → Text → Option Text
  answer_str res name = Options.◌>>=◌ (http.get res.headers name) http.to_str

  -- `unwrap_or_else(|| Utc::now().timestamp())`
  unfoldable pub or_now : Option ℤ → Io (Line net) ℤ
  or_now (some t) s = (ok t, s)
  or_now none s = (ok (net.now s.readings), record s { readings = s.readings + 1 })

  -- The metadata in the headers of a good answer.
  unfoldable pub metadata_of : Incoming http → Io (Line net) ObjectMetadata
  unfolding or_now
  metadata_of res = do
    last_modified ← or_now (Options.◌>>=◌ (answer_str res (codes "last-modified")) net.from_rfc2822)
    pure (record {
      content_length =
          unwrap_or (Options.◌>>=◌ (answer_str res (codes "content-length")) parse_u64) 0;
      content_type = answer_str res (codes "content-type");
      etag = answer_str res (codes "etag");
      last_modified = last_modified;
    })

  -- What `head_object` makes of the answer.
  unfoldable pub head_answer : Incoming http → Io (Line net) ObjectMetadata
  unfolding is_success metadata_of
  head_answer res =
      if not (is_success res.status)
      then (if res.status == 404
          then raise (error (codes "NoSuchKey: Object not found"))
          else raise
              (error (codes "Upstream HEAD failed with status " ++ net.status_text res.status)))
      else metadata_of res

  unfoldable pub head_object : (bucket key : Text) → Io (Line net) ObjectMetadata
  unfolding prepare send head_answer
  head_object bucket key = do
    out ← prepare (codes "HEAD") (some bucket) key http.no_headers none
    res ← send out
    head_answer res

  unfoldable pub get_object_range_stream :
      (bucket key range_header : Text) → Io (Line net) (List (Result Bytes))
  unfolding prepare send is_success
  get_object_range_stream bucket key range_header = do
    range ← lift (unwrap (http.parse range_header))
    out ←
        prepare (codes "GET") (some bucket) key (http.insert http.no_headers (codes "range") range)
          none
    res ← send out
    if not (is_success res.status)
        then raise (error (codes "Upstream GET failed with status " ++ net.status_text res.status))
        else pure res.chunks

  -- `bail!` with the status and the body, or else the tag of the answer.
  unfoldable pub tag_of : (what : Text) → Incoming http → Io (Line net) Text
  unfolding is_success
  tag_of what res =
      if not (is_success res.status)
      then raise (error (what ++ net.status_text res.status ++ codes ": " ++ text_of res.text))
      else pure (unwrap_or (answer_str res (codes "etag")) [])
    where
      text_of : Result Text → Text
      text_of (ok t) = t
      text_of (err e) = []

  -- The content type of an upload, if it has one.
  abbrev with_type : Option Text → http.HeaderMap → Result http.HeaderMap
  with_type none headers = ok headers
  with_type (some ct) headers =
      Checked.◌>>=◌ (unwrap (http.parse ct)) λ v. ok (http.insert headers (codes "content-type") v)

  unfoldable pub put_headers : (content_length : ℕ) → Option Text → Result http.HeaderMap
  put_headers content_length content_type =
      Checked.◌>>=◌ (unwrap (http.parse (print content_length))) λ length_value.
        Checked.◌>>=◌
          (with_type content_type
            (http.insert http.no_headers (codes "content-length") length_value))
          λ headers.
            Checked.◌>>=◌ (unwrap (http.parse (codes "UNSIGNED-PAYLOAD")))
              λ v. ok (http.insert headers (codes "x-amz-content-sha256") v)

  unfoldable pub put_object_stream :
      (bucket key : Text)
      → List (Result Bytes)
      → (content_length : ℕ) → Option Text
      → Io (Line net) Text
  unfolding put_headers prepare send tag_of
  put_object_stream bucket key stream content_length content_type = do
    headers ← lift (put_headers content_length content_type)
    out ← prepare (codes "PUT") (some bucket) key headers none
    res ← send (record out { stream = some stream })
    tag_of (codes "Upstream upload failed with status ") res

  -- The URL is built once more before, for the log.
  unfoldable pub delete_object : (bucket key : Text) → Io (Line net) (Unit {0})
  unfolding prepare send is_success
  delete_object bucket key = do
    lift (build_url urls c (some bucket) key)
    out ← prepare (codes "DELETE") (some bucket) key http.no_headers none
    res ← send out
    if not (is_success res.status)
        then raise
            (error (codes "Upstream DELETE failed with status " ++ net.status_text res.status))
        else pure tt

  unfoldable pub copy_object : (src_bucket src_key dest_bucket dest_key : Text) → Io (Line net) Text
  unfolding prepare send tag_of
  copy_object src_bucket src_key dest_bucket dest_key = do
    source ← lift (unwrap (http.parse (b'/' ∷ src_bucket ++ b'/' ∷ s3_percent_encode src_key)))
    out ←
        prepare (codes "PUT") (some dest_bucket) dest_key
          (http.insert http.no_headers (codes "x-amz-copy-source") source) none
    res ← send out
    tag_of (codes "Upstream CopyObject failed with status ") res

  -- The client is what the cache takes for its upstream store.
  unfoldable pub upstream : Upstream
  unfolding head_object get_object_range_stream put_object_stream delete_object copy_object
  upstream = record {
    Remote = Line net;
    head_object = head_object;
    get_object_range_stream = get_object_range_stream;
    put_object_stream = put_object_stream;
    delete_object = delete_object;
    copy_object = copy_object;
  }
