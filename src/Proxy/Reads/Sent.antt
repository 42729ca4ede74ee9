-- ===== src/Proxy/Reads/Sent.antt =====
-- `head_object` and `get_object_range_stream` of `src/proxy/mod.rs` as one request and what is made of
-- its answer.
use s3xc.Prelude.{
  not, if◌then◌else◌, ◌+◌, ◌++◌, ◌≤◌, ◌≡◌, refl, sym, ap, ◌∙◌, inl, inr, Option, none, some, List,
  Bytes, Text, codes, length, Bool-cases, ◌==◌,
}
use s3xc.Prelude.Int.{ℤ}
use s3xc.Io.{Result, ok, err, error, panic, diverges, Io, raise, pure, continue, Result-cases}
use s3xc.Options.{◌>>=◌}
use s3xc.Str.Decimal.{parse_u64-print, u64_max}
use s3xc.External.Http.{Http, Crypto}
use s3xc.External.Remote.{Stored}
use s3xc.External.Url.{Urls, Outgoing, Incoming, Net}
use s3xc.Server.S3Api.Params.{header_str}
use s3xc.Proxy.{ProxyClient}
use s3xc.Proxy.Sign.{prepare_request}
use s3xc.Proxy.Objects.{
  is_success, Line, prepare, send, or_now, metadata_of, head_answer, head_object,
  get_object_range_stream,
}
use s3xc.Proxy.Reads.Requests.{prepare_request-method}
use s3xc.Proxy.Reads.{Tells}

module _ (http : Http) (crypto : Crypto) (urls : Urls) (net : Net http urls) (c : ProxyClient) where
  or_now_state :
      (d : Option ℤ) (l : Line net) → (or_now http crypto urls net c d l).1.state ≡ l.state
  unfolding or_now
  or_now_state (some t) l = refl
  or_now_state none l = refl

  metadata_of_state :
      (res : Incoming http) (l : Line net)
      → (metadata_of http crypto urls net c res l).1.state ≡ l.state
  metadata_of_state res l =
      let d = header_str http res.headers (codes "last-modified") >>= net.from_rfc2822 in
      elim (Result-cases (or_now http crypto urls net c d l).0) [
        | inl (t, e) ↦ unfold metadata_of in rw e (or_now_state d l)
        | inr (x, e) ↦ unfold metadata_of in rw e (or_now_state d l)
      ]

  head_answer_state :
      (res : Incoming http) (l : Line net)
      → (head_answer http crypto urls net c res l).1.state ≡ l.state
  head_answer_state res l = elim (Bool-cases (is_success res.status)) [
    | inl good ↦ unfold head_answer in rw good (metadata_of_state res l)
    | inr bad ↦ elim (Bool-cases (res.status == 404)) [
      | inl missing ↦ unfold head_answer in rw (bad, missing) refl
      | inr other ↦ unfold head_answer in rw (bad, other) refl
    ]
  ]

  -- The answer to HEAD about an object is read as its metadata.
  pub head_answer_returns :
      (s : Stored) (res : Incoming http) (l : Line net)
      → s.meta.content_length ≡ length s.bytes
      → length s.bytes ≤ u64_max
      → Tells http urls net s res
      → (head_answer http crypto urls net c res l).0 ≡ ok s.meta
  unfolding head_answer metadata_of or_now
  head_answer_returns s res l size small t =
      rw
        (
          t.success,
          t.date_header,
          t.length_header,
          t.type_header,
          t.etag_header,
          parse_u64-print (length s.bytes) small,
          sym size,
        )
        refl

  pub head_object_sent :
      (bucket key : Text) (l : Line net) (out : Outgoing http urls)
      → prepare_request http crypto urls c
          (net.now_text l.readings)
          (codes "HEAD")
          (some bucket)
          key
          http.no_headers
          none
        ≡ ok out
      → head_object http crypto urls net c bucket key l
        ≡ continue
            (head_answer http crypto urls net c)
            (net.send out l.state).0
            (record { state = (net.send out l.state).1; readings = l.readings + 1 })
  unfolding head_object prepare send
  head_object_sent bucket key l out e = rw e refl

  answered_state :
      (r : Result (Incoming http)) (l : Line net)
      → (continue (head_answer http crypto urls net c) r l).1.state ≡ l.state
  answered_state (ok res) l = head_answer_state res l
  answered_state (err x) l = refl

  -- HEAD changes no object, whether it returns or fails.
  pub head_object_state :
      (stored : net.State → Text → Text → Option Stored)
      → ((st : net.State) (out : Outgoing http urls)
          → out.method ≡ codes "HEAD"
          → stored (net.send out st).1 ≡ stored st)
      → (bucket key : Text) (l : Line net)
      → stored (head_object http crypto urls net c bucket key l).1.state ≡ stored l.state
  head_object_state stored keeps bucket key l =
      let made =
        prepare_request http crypto urls c (net.now_text l.readings) (codes "HEAD") (some bucket)
          key http.no_headers none in
      elim (Result-cases made) [
        | inl (out, e) ↦ rw (head_object_sent bucket key l out e) (
            ap stored (
              answered_state (net.send out l.state).0
                (record { state = (net.send out l.state).1; readings = l.readings + 1 }))
            ∙ keeps l.state out (
                prepare_request-method http crypto urls c _ _ (some bucket) key http.no_headers none
                  out e))
        | inr (x, e) ↦ unfold head_object prepare in rw e refl
      ]

  -- What `get_object_range_stream` makes of the answer.
  abbrev pub range_answer : Incoming http → Io (Line net) (List (Result Bytes))
  range_answer res =
      if not (is_success res.status)
      then raise (error (codes "Upstream GET failed with status " ++ net.status_text res.status))
      else pure res.chunks

  pub range_sent :
      (bucket key header : Text) (v : http.HeaderValue) (l : Line net) (out : Outgoing http urls)
      → http.parse header ≡ ok v
      → prepare_request http crypto urls c
          (net.now_text l.readings)
          (codes "GET")
          (some bucket)
          key
          (http.insert http.no_headers (codes "range") v)
          none
        ≡ ok out
      → get_object_range_stream http crypto urls net c bucket key header l
        ≡ continue range_answer
            (net.send out l.state).0
            (record { state = (net.send out l.state).1; readings = l.readings + 1 })
  unfolding get_object_range_stream prepare send
  range_sent bucket key header v l out p e = rw (p, e) refl

  ranged_state :
      (r : Result (Incoming http)) (l : Line net) → (continue range_answer r l).1.state ≡ l.state
  ranged_state (err x) l = refl
  ranged_state (ok res) l = elim (Bool-cases (is_success res.status)) [
    | inl good ↦ rw good refl
    | inr bad ↦ rw bad refl
  ]

  -- GET changes no object, whether it returns or fails.
  pub range_state :
      (stored : net.State → Text → Text → Option Stored)
      → ((st : net.State) (out : Outgoing http urls)
          → out.method ≡ codes "GET"
          → stored (net.send out st).1 ≡ stored st)
      → (bucket key header : Text) (l : Line net)
      → stored (get_object_range_stream http crypto urls net c bucket key header l).1.state
        ≡ stored l.state
  range_state stored keeps bucket key header l = elim (Result-cases (http.parse header)) [
    | inr (error t, p) ↦ unfold get_object_range_stream in rw p refl
    | inr (panic, p) ↦ unfold get_object_range_stream in rw p refl
    | inr (diverges, p) ↦ unfold get_object_range_stream in rw p refl
    | inl (v, p) ↦
        let made =
          prepare_request http crypto urls c (net.now_text l.readings) (codes "GET") (some bucket)
            key (http.insert http.no_headers (codes "range") v) none in
        elim (Result-cases made) [
          | inl (out, e) ↦ rw (range_sent bucket key header v l out p e) (
              ap stored (
                ranged_state (net.send out l.state).0
                  (record { state = (net.send out l.state).1; readings = l.readings + 1 }))
              ∙ keeps l.state out (
                  prepare_request-method http crypto urls c _ _ (some bucket) key
                    (http.insert http.no_headers (codes "range") v) none out e))
          | inr (x, e) ↦ unfold get_object_range_stream prepare in rw (p, e) refl
        ]
  ]
