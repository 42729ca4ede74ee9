-- ===== src/Server/Handlers/Serves.antt =====
-- A GET answers with the bytes of the upstream object.
use s3xc.Prelude.{
  ℕ, ◌+◌, ◌^◌, ◌≤◌, ◌<◌, ◌≡◌, refl, subst, sym, ap, ◌∙◌, true, false, Option, none, some, Bytes,
  Bool, List, Text, codes, All, length, concat, slice, min, arith, if◌then◌else◌,
}
use s3xc.Io.{ok, bind_inv}
use s3xc.Options.{◌>>=◌}
use s3xc.External.{Env, World}
use s3xc.External.Works.{EnvWorks}
use s3xc.External.Remote.{Stored, UpstreamReads}
use s3xc.External.Http.{Http, HttpWorks, same_name, IsVisible}
use s3xc.External.Http.Visible.{all_visible, all_visible-IsVisible}
use s3xc.Cache.Metadata.Types.{ObjectMetadata}
use s3xc.Cache.Coordinator.{CacheCoordinator}
use s3xc.Cache.Drop.{get_object_metadata}
use s3xc.Cache.Read.{ReadFuture, run_stream, read_range}
use s3xc.Cache.Read.Fresh.{Knows, known, IsFresh, get_object_metadata-IsFresh}
use s3xc.Cache.Read.Slice.{read_bytes, read_bytes-slice}
use s3xc.Server.Outcome.{done}
use s3xc.Server.Range.{parse_range}
use s3xc.Server.Range.Bounds.{parse_range_bounds}
use s3xc.Server.S3Api.Params.{header_str}
use s3xc.Server.Handlers.{stream, Response, Dates, format_http_date, insert_text, cache_status}
use s3xc.Server.Handlers.Fetch.{get_headers, requested, get_object_handler, span_of}
use s3xc.Server.Handlers.Headers.{Describes, get_headers-Describes, insert_text_lem}
use s3xc.Server.Handlers.Status.{cache_status_lem}
use s3xc.Server.Handlers.Asks.{Asks, Asks-span_of}

module _ (http : Http) (hw : HttpWorks http) (dates : Dates) (env : Env) (works : EnvWorks env)
    (up : UpstreamReads env.upstream) (c : CacheCoordinator) (bucket key : Text) (s : Stored) where
  span_of_bounds :
      (o : Option (ℕ × ℕ)) (n : ℕ)
      → ((a b : ℕ) → o ≡ some (a, b) → (a ≤ b) × (b ≤ n))
      → ((span_of o n).0 ≤ (span_of o n).1) × ((span_of o n).1 ≤ n)
  span_of_bounds none n h = (omega arith, omega arith)
  span_of_bounds (some (a, b)) n h = h a b refl

  parsed_bounds :
      (r : Option Text) (n a b : ℕ) → (r >>= λ t. parse_range t n) ≡ some (a, b) → (a ≤ b) × (b ≤ n)
  parsed_bounds none n a b e = absurd cc
  parsed_bounds (some t) n a b e = parse_range_bounds t n a b e

  -- The range that is asked for lies in the object.
  requested_bounds :
      (h : http.HeaderMap) (n : ℕ)
      → ((requested http h n).0 ≤ (requested http h n).1) × ((requested http h n).1 ≤ n)
  unfolding requested
  requested_bounds h n =
      span_of_bounds _ n (λ a b e. parsed_bounds (header_str http h (codes "range")) n a b e)

  -- The answer to a GET, and what the client takes of its body.
  pub record Serves (start end status : ℕ) (answer : Response http) (w : World env) : Type 0 where
    pub status_lem : answer.status ≡ status
    pub headers_lem : Describes http hw dates status start end s.meta answer.headers
    pub futs : List ReadFuture
    pub body_lem : answer.body ≡ stream futs
    pub pieces : List Bytes
    pub reads : (run_stream env c bucket key futs w).0 ≡ ok pieces
    pub bytes_lem : concat pieces ≡ slice start end s.bytes

  -- The request for the range: its futures, and what they give.
  read_range_lem :
      (w : World env) (start end : ℕ)
      → 0 < c.chunk_size
      → length s.bytes + c.chunk_size ≤ 2 ^ 64
      → up.stored w.remote bucket key ≡ some s
      → Knows env works up c bucket key s w
      → (futs : List ReadFuture) × (pieces : List Bytes) × ((read_range env c bucket key start end
            w).0
          ≡ ok futs)
        × ((read_range env c bucket key start end w).1 ≡ (get_object_metadata env c bucket key w).1)
        × ((run_stream env c bucket key futs (get_object_metadata env c bucket key w).1).0
            ≡ ok pieces)
        × (concat pieces ≡ slice start (min end (length s.bytes)) s.bytes)
  unfolding read_range read_bytes
  read_range_lem w start end pos small there knows =
      let fresh = get_object_metadata-IsFresh env works up c bucket key s w pos there knows in
      let (pieces, got, whole, coherent) =
        read_bytes-slice env works up c bucket key s w start end pos small there knows in
      let (futs, planned, ran) =
        bind_inv (read_range env c bucket key start end) (run_stream env c bucket key) w pieces
          got in
      let state : (read_range env c bucket key start end w).1
          ≡ (get_object_metadata env c bucket key w).1 =
        rw fresh.returns refl in
      (
        futs,
        pieces,
        planned,
        state,
        ap (λ w'. (run_stream env c bucket key futs w').0) (sym state) ∙ ran,
        whole,
      )

  -- What is known after a request for the metadata is enough for the next one.
  IsFresh-Knows :
      (w : World env)
      → IsFresh env works up c bucket key s (get_object_metadata env c bucket key w)
      → Knows env works up c bucket key s (get_object_metadata env c bucket key w).1
  IsFresh-Knows w fresh =
      known s.meta fresh.recorded fresh.within
        λ e n i m found complete. fresh.coherent.chunk_lem i m found complete

  abbrev asked : http.HeaderMap → ℕ × ℕ × ℕ
  asked headers_in = requested http headers_in s.meta.content_length

  asked_lem :
      (h : http.HeaderMap)
      → Asks s.meta.content_length
          (header_str http h (codes "range"))
          (asked h).0
          (asked h).1
          (asked h).2
  unfolding requested
  asked_lem h = Asks-span_of (header_str http h (codes "range")) s.meta.content_length

  hot-IsVisible : (b : Bool) → All IsVisible (if b then codes "hot" else codes "cold")
  unfolding all_visible
  hot-IsVisible true = all_visible-IsVisible (codes "hot") refl
  hot-IsVisible false = all_visible-IsVisible (codes "cold") refl

  -- The last header is another than those that describe the body.
  kept-Describes :
      (status start end : ℕ) (h h' : http.HeaderMap)
      → ((k : Text)
          → same_name k (codes "X-S3XC-CACHED") ≡ false
          → header_str http h' k ≡ header_str http h k)
      → Describes http hw dates status start end s.meta h
      → Describes http hw dates status start end s.meta h'
  unfolding same_name
  kept-Describes status start end h h' keeps d = record {
    length_lem = keeps (codes "content-length") refl ∙ d.length_lem;
    range_lem = λ e. keeps (codes "content-range") refl ∙ d.range_lem e;
  }

  -- The handler, by what its steps return.
  handler_lem :
      (w : World env) (headers_in : http.HeaderMap) (meta : ObjectMetadata) (futs : List ReadFuture)
      (h h' : http.HeaderMap) (t : Text)
      → let range = requested http headers_in meta.content_length in
        let w1 = (get_object_metadata env c bucket key w).1 in
        let w2 = (get_object_metadata env c bucket key w1).1 in
        (get_object_metadata env c bucket key w).0 ≡ ok meta
        → (read_range env c bucket key range.0 range.1 w1).0 ≡ ok futs
        → (read_range env c bucket key range.0 range.1 w1).1 ≡ w2
        → get_headers http dates meta range.2 range.0 range.1 ≡ ok h
        → cache_status env bucket key w2 ≡ (ok t, w2)
        → insert_text http (codes "X-S3XC-CACHED") t h ≡ ok h'
        → get_object_handler http dates env c headers_in bucket key w
          ≡ (ok (done (record { status = range.2; headers = h'; body = stream futs })), w2)
  unfolding get_object_handler
  handler_lem w headers_in meta futs h h' t e1 e2 e3 e4 e5 e6 = rw (e1, e2, e3, e4, e5, e6) refl

  -- For a positive chunk size, an object upstream whose length and a chunk fit in 64 bits, a date
  -- that a header can carry, and a cache that knows nothing of the object or a version of it with
  -- chunks inside the recorded length (right ones, if the tag and the length are still the upstream
  -- ones): a GET is answered; with status 200 and the whole object if it has no `Range` header or
  -- `parse_range` reads no range in it, else with status 206 and the range that `parse_range` reads,
  -- which lies in the object and may be empty. `Content-Length` is the length of that range,
  -- `Content-Range` on a 206 names its start, its end less one (0 for the end 0) and the object's
  -- length, and the client takes exactly the bytes of the range of the upstream object from the body.
  pub get_object_handler-Serves :
      (w : World env) (headers_in : http.HeaderMap)
      → 0 < c.chunk_size
      → length s.bytes + c.chunk_size ≤ 2 ^ 64
      → All IsVisible (format_http_date dates s.meta.last_modified)
      → up.stored w.remote bucket key ≡ some s
      → Knows env works up c bucket key s w
      → (start end status : ℕ) × Asks
          (length s.bytes)
          (header_str http headers_in (codes "range"))
          start
          end
          status
        × (start ≤ end)
        × (end ≤ length s.bytes)
        × (answer : Response http) × ((get_object_handler http dates env c headers_in bucket key
              w).0
            ≡ ok (done answer))
        × Serves start end status answer
            (get_object_handler http dates env c headers_in bucket key w).1
  get_object_handler-Serves w headers_in pos small dated there knows =
      let (start, end, status) = asked headers_in in
      let size = up.length_lem w.remote bucket key s there in
      let (ordered, inside) = requested_bounds headers_in s.meta.content_length in
      let fresh = get_object_metadata-IsFresh env works up c bucket key s w pos there knows in
      let w1 = (get_object_metadata env c bucket key w).1 in
      let knows1 = IsFresh-Knows w fresh in
      let fresh1 =
        get_object_metadata-IsFresh env works up c bucket key s w1 pos fresh.coherent.stored_lem
          knows1 in
      let (futs, pieces, planned, state, ran, whole) =
        read_range_lem w1 start end pos small fresh.coherent.stored_lem knows1 in
      let (h, made, describes) =
        get_headers-Describes http hw dates s.meta status start end dated in
      let (is_hot, found) = cache_status_lem env works bucket key _ s.meta fresh1.recorded in
      let (h', put, here, keeps) =
        insert_text_lem http hw (codes "X-S3XC-CACHED")
          (if is_hot then codes "hot" else codes "cold") h (hot-IsVisible is_hot) in
      let run =
        handler_lem w headers_in s.meta futs h h' _ fresh.returns planned state made found put in
      (
        start,
        end,
        status,
        subst (λ n. Asks n (header_str http headers_in (codes "range")) start end status) size
            (asked_lem headers_in),
        ordered,
        omega arith,
        record { status = status; headers = h'; body = stream futs },
        ap (λ r. r.0) run,
        record {
          status_lem = refl;
          headers_lem = kept-Describes status start end h h' keeps describes;
          futs = futs;
          body_lem = refl;
          pieces = pieces;
          reads = ap (λ r. (run_stream env c bucket key futs r.1).0) run ∙ ran;
          bytes_lem =
              whole
              ∙ ap (λ n. slice start n s.bytes) {x = min end (length s.bytes)} {y = end}
                  (omega arith);
        },
      )
