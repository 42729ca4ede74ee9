-- ===== src/Tests/Network.antt =====
-- A network with an S3 server of one object behind it.
use s3xc.Prelude.{
  ◌<◌, ◌≤◌, ◌-◌, Bool-cases, inl, inr, if◌then◌else◌, ℕ, ◌≡◌, refl, subst, sym, ap, ◌∙◌, Option,
  none, some, List, [], ◌∷◌, ◌++◌, Bytes, Text, codes, length, concat, map, slice, append-nil,
  arith, text_eq, true, false,
}
use s3xc.Prelude.Int.{pos}
use s3xc.Io.{Result, ok, err, error}
use s3xc.Options.{◌>>=◌}
use s3xc.Str.Decimal.{print, print-IsDigit}
use s3xc.External.Http.{same_name}
use s3xc.External.Http.Visible.{IsVisible-IsDigit}
use s3xc.External.Remote.{Stored}
use s3xc.External.Url.{Incoming, Net}
use s3xc.Cache.Read.{range_header}
use s3xc.Server.S3Api.Params.{header_str}
use s3xc.Str.{trim_start_matches}
use s3xc.Proxy.Objects.{is_success, Line, head_object, get_object_range_stream}
use s3xc.Proxy.Reads.{Tells, NetWorks}
use s3xc.Proxy.Reads.Requests.{IsName, not_signed}
use s3xc.Proxy.Reads.Instance.{Fits, get_object_range_stream-slice}
use s3xc.Tests.Store.{of_bytes, object_of_lem, object_of, read, small, meta_small, read_lem}
use s3xc.Tests.Web.{
  url_works, http, http_works, crypto, crypto_works, urls, IsVisible-visible_text, visible_text,
  visible,
}
use s3xc.Tests.Auth.{datetime, datetime-IsPart, up-IsVisible}
use s3xc.Tests.Serving.{client}

-- The answer to HEAD.
unfoldable told : Option Stored → Incoming http
unfolding http
told none = record { status = 404; headers = http.no_headers; chunks = []; text = ok [] }
told (some s) = record {
  status = 200;
  headers =
      (codes "Content-Length", print (length s.bytes))
      ∷ (codes "ETag", codes "tag")
      ∷ (codes "Last-Modified", codes "yesterday")
      ∷ [];
  chunks = [];
  text = ok [];
}

abbrev received : Result (List (Result Bytes)) → Result (Incoming http)
received (ok chunks) =
    ok (record { status = 206; headers = http.no_headers; chunks = chunks; text = ok [] })
received (err e) = err e

-- The answer to GET.
abbrev got : Option Stored → Option Text → Result (Incoming http)
got o none = err (error (codes "no range"))
got o (some header) = received (read o header)

-- The one object is at this path.
at : (path : Text) → Option Stored → Option Stored
at path o = if text_eq path (codes "/b/k") then o else none

at_lem : (path : Text) (o : Option Stored) (s : Stored) → at path o ≡ some s → o ≡ some s
unfolding at
at_lem path o s e = elim (Bool-cases (text_eq path (codes "/b/k"))) [
  | inl here ↦ sym (unfold at in rw here refl) ∙ e
  | inr other ↦ ground (arith, e, other)
]

unfoldable answer : Text → http.HeaderMap → Option Stored → Result (Incoming http)
answer method headers o = elim (text_eq method (codes "HEAD")) [
  | true ↦ ok (told o)
  | false ↦ got o (http.get headers (codes "range") >>= http.to_str)
]

answer_head :
    (method : Text) (headers : http.HeaderMap) (o : Option Stored) (s : Stored)
    → method ≡ codes "HEAD"
    → o ≡ some s
    → answer method headers o ≡ ok (told (some s))
unfolding answer text_eq
answer_head method headers o s m e = rw (m, e) refl

answer_get :
    (method : Text) (headers : http.HeaderMap) (o : Option Stored) (header : Text)
    → method ≡ codes "GET"
    → header_str http headers (codes "range") ≡ some header
    → answer method headers o ≡ received (read o header)
unfolding answer text_eq
answer_get method headers o header m shown = rw (m, shown) refl

abbrev net : Net http urls
net = record {
  State = Option Bytes;
  send = λ out st. (answer out.method out.headers (at (urls.path out.url) (object_of st)), st);
  now_text = λ n. datetime;
  now = λ n. pos n;
  from_rfc2822 = λ t. some (pos 1);
  status_text = print;
  from_bytes = λ t. ok t;
}

visible_number : (n : ℕ) → visible_text (print n) ≡ true
visible_number n = IsVisible-visible_text (print n) (IsVisible-IsDigit (print n) (print-IsDigit n))

told-Tells : (b : Bytes) → Tells http urls net (of_bytes b) (told (some (of_bytes b)))
unfolding told is_success http same_name visible_text visible
told-Tells b = record {
  success = refl;
  length_header = rw (visible_number (length b)) refl;
  type_header = refl;
  etag_header = refl;
  date_header = refl;
}

abbrev endpoint : urls.Url
endpoint = (codes "up", codes "/", none)

abbrev range_text : ℕ → ℕ → Text
range_text a b = codes "bytes=" ++ (print a ++ b'-' ∷ print (b - 1))

read_text :
    (st : Option Bytes) (s : Stored) (a b : ℕ)
    → object_of st ≡ some s
    → a < b
    → b ≤ length s.bytes
    → read (object_of st) (range_text a b) ≡ ok (ok (slice a b s.bytes) ∷ [])
read_text st s a b held less fits = unfold range_header in read_lem st s a b held less fits

unfoldable net_works : NetWorks http crypto crypto_works urls net none endpoint
unfolding at
net_works = record {
  stored = λ st bucket key. at (b'/' ∷ bucket ++ b'/' ∷ key) (object_of st);
  length_lem = λ st bucket key s e.
      let held = at_lem (b'/' ∷ bucket ++ b'/' ∷ key) (object_of st) s e in
      (meta_small st s held, small st s held);
  head_lem = λ st bucket key s out e asked.
      let held = at_lem (b'/' ∷ bucket ++ b'/' ∷ key) (object_of st) s e in
      (
        told (some s),
        answer_head out.method out.headers (at (urls.path out.url) (object_of st)) s
            asked.method_lem (ap (λ p. at p (object_of st)) asked.path_lem ∙ e),
        subst (λ s. Tells http urls net s (told (some s))) (sym (object_of_lem st s held))
            (told-Tells s.bytes),
      );
  head_keeps = λ st out m. refl;
  range_lem = λ st bucket key s a b out e less fits asked shown.
      let held = at_lem (b'/' ∷ bucket ++ b'/' ∷ key) (object_of st) s e in
      let here = ap (λ p. at p (object_of st)) asked.path_lem ∙ e in
      (
        record {
          status = 206;
          headers = http.no_headers;
          chunks = ok (slice a b s.bytes) ∷ [];
          text = ok [];
        },
        slice a b s.bytes ∷ [],
        answer_get out.method out.headers (at (urls.path out.url) (object_of st)) _ asked.method_lem
              shown
            ∙ ap (λ o. received (read o (range_text a b))) (here ∙ sym held)
            ∙ ap received (read_text st s a b held less fits),
        unfold is_success in refl,
        refl,
        append-nil (slice a b s.bytes),
      );
  get_keeps = λ st out m. refl;
  clock_lem = λ n. (datetime-IsPart, omega arith);
}

b_k-IsName : IsName (codes "b") (codes "k")
unfolding trim_start_matches
b_k-IsName = record {
  no_slash = refl;
  no_mark = ground arith;
  bytes = ground arith;
  dots = ground arith;
}

client-Fits : Fits http crypto urls client none endpoint
client-Fits = record { can = not_signed; style = refl; parsed = refl; visible = up-IsVisible }

get_object_range_stream-slice_example :
    let l : Line net = record { state = some (codes "hello"); readings = 0 } in
    let head = head_object http crypto urls net client (codes "b") (codes "k") l in
    let body =
      get_object_range_stream http crypto urls net client
        (codes "b")
        (codes "k")
        (range_header 1 3)
        head.1 in
    (head.0 ≡ ok (of_bytes (codes "hello")).meta)
    × ((pieces : List Bytes) × (body.0 ≡ ok (map ok pieces))
        × (concat pieces ≡ slice 1 3 (codes "hello")))
    × (net_works.stored body.1.state ≡ net_works.stored l.state)
unfolding net_works text_eq
get_object_range_stream-slice_example =
    get_object_range_stream-slice http http_works crypto crypto_works urls url_works net client none
      endpoint client-Fits net_works (codes "b") (codes "k")
      (record { state = some (codes "hello"); readings = 0 }) (of_bytes (codes "hello")) 1 3
      b_k-IsName refl (omega arith) (omega arith)
