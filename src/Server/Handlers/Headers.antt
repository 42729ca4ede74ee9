-- ===== src/Server/Handlers/Headers.antt =====
-- The headers of an answer that serves an object.
use s3xc.Prelude.{
  ◌++◌, ◌∷◌, ◌-◌, ℕ, ◌-◌, ◌≡◌, refl, ◌∙◌, true, false, inl, inr, Option, none, some, Text, codes,
  All, All-append, Bool-cases, ◌==◌, arith,
}
use s3xc.Io.{ok}
use s3xc.Str.Decimal.{print, print-IsDigit}
use s3xc.External.Http.{Http, HttpWorks, same_name, IsVisible}
use s3xc.External.Http.Visible.{IsVisible-IsDigit, all_visible, all_visible-IsVisible}
use s3xc.Cache.Metadata.Types.{ObjectMetadata}
use s3xc.Server.S3Api.Params.{header_str}
use s3xc.Server.Handlers.{Dates, format_http_date, insert_text, insert_valid}
use s3xc.Server.Handlers.Fetch.{object_headers, content_range, with_range, get_headers}

module _ (http : Http) (works : HttpWorks http) where
  -- What a header is after another name was set.
  abbrev Keeps : Text → http.HeaderMap → http.HeaderMap → Type 0
  Keeps name before after =
      (k : Text) → same_name k name ≡ false → header_str http after k ≡ header_str http before k

  pub insert_text_lem :
      (name value : Text) (h : http.HeaderMap)
      → All IsVisible value
      → (h' : http.HeaderMap) × (insert_text http name value h ≡ ok h')
        × ((k : Text) → same_name k name ≡ true → header_str http h' k ≡ some value)
        × Keeps name h h'
  unfolding insert_text
  insert_text_lem name value h visible =
      let (v, made, read) = works.parse_lem value visible in
      (
        http.insert h name v,
        rw made refl,
        λ k same. rw (works.get_lem h name k v, same) read,
        λ k other. rw (works.get_lem h name k v, other) refl,
      )

  insert_valid_lem :
      (name : Text) (value : Option Text) (h : http.HeaderMap)
      → (h' : http.HeaderMap) × (insert_valid http name value h ≡ ok h') × Keeps name h h'
  unfolding insert_valid
  insert_valid_lem name none h = (h, refl, λ k other. refl)
  insert_valid_lem name (some value) h = elim (works.parse_returns value) [
    | inl (v, made) ↦
        (http.insert h name v, rw made refl, λ k other. rw (works.get_lem h name k v, other) refl)
    | inr (t, refused) ↦ (h, rw refused refl, λ k other. refl)
  ]

module _ (http : Http) (works : HttpWorks http) (dates : Dates) where
  content_range-IsVisible : (a b n : ℕ) → All IsVisible (content_range http dates a b n)
  unfolding all_visible
  content_range-IsVisible a b n =
      All-append IsVisible (codes "bytes ") _ (all_visible-IsVisible (codes "bytes ") refl) (
        All-append IsVisible (print a) _ (digits a) (
          All-append IsVisible (codes "-") _ (all_visible-IsVisible (codes "-") refl) (
            All-append IsVisible (print (b - 1)) _ (digits (b - 1)) (
              All-append IsVisible (codes "/") _ (all_visible-IsVisible (codes "/") refl)
                (digits n)))))
    where
      digits : (n : ℕ) → All IsVisible (print n)
      digits n = IsVisible-IsDigit (print n) (print-IsDigit n)

  with_range_lem :
      (status a b n : ℕ) (h : http.HeaderMap)
      → (h' : http.HeaderMap) × (with_range http dates status a b n h ≡ ok h')
        × (status ≡ 206
            → header_str http h' (codes "content-range") ≡ some (content_range http dates a b n))
        × Keeps http works (codes "content-range") h h'
  unfolding same_name
  with_range_lem status a b n h =
      let (h', set, here, others) =
        insert_text_lem http works (codes "content-range") (content_range http dates a b n) h
          (content_range-IsVisible a b n) in
      elim (Bool-cases (status == 206)) [
        | inl partial ↦ (h', rw partial set, λ e. here (codes "content-range") refl, others)
        | inr whole ↦ (h, rw whole refl, λ e. absurd (ground arith), λ k other. refl)
      ]

  -- The headers of a GET are set, whatever the tag and the type of the object are.
  pub record Describes (status start end : ℕ) (m : ObjectMetadata) (h : http.HeaderMap)
      : Type 0 where
    pub length_lem : header_str http h (codes "content-length") ≡ some (print (end - start))
    pub range_lem :
        status ≡ 206
        → header_str http h (codes "content-range")
          ≡ some (
              codes "bytes "
              ++ (print start ++ (b'-' ∷ print (end - 1) ++ b'/' ∷ print m.content_length)))

  pub get_headers-Describes :
      (m : ObjectMetadata) (status start end : ℕ)
      → All IsVisible (format_http_date dates m.last_modified)
      → (h : http.HeaderMap) × (get_headers http dates m status start end ≡ ok h)
        × Describes status start end m h
  unfolding get_headers object_headers same_name all_visible
  get_headers-Describes m status start end dated =
      let (h1, e1, _, _) =
        insert_text_lem http works (codes "accept-ranges") (codes "bytes") http.no_headers
          (all_visible-IsVisible (codes "bytes") refl) in
      let (h2, e2, _) = insert_valid_lem http works (codes "content-type") m.content_type h1 in
      let (h3, e3, _) = insert_valid_lem http works (codes "etag") m.etag h2 in
      let (h4, e4, _, _) = insert_text_lem http works (codes "last-modified") _ h3 dated in
      let (h5, e5, here, _) =
        insert_text_lem http works (codes "content-length") (print (end - start)) h4
          (IsVisible-IsDigit _ (print-IsDigit _)) in
      let (h6, e6, range, keeps) = with_range_lem status start end m.content_length h5 in
      (
        h6,
        rw (e1, e2, e3, e4, e5, e6) refl,
        record {
          length_lem = keeps (codes "content-length") refl ∙ here (codes "content-length") refl;
          range_lem = range;
        },
      )
