-- ===== src/Server/S3Api/Canonical.antt =====
-- `build_canonical_request` of `src/server/s3_api.rs`: the text of a request that is hashed and
-- signed.
use s3xc.Prelude.{not, List, [], ◌∷◌, ◌++◌, map, Text, codes, text_eq, if◌then◌else◌}
use s3xc.Options.{◌>>=◌, option_map, unwrap_or}
use s3xc.Str.{trim, to_lowercase, join}
use s3xc.Str.Sort.{sort_by}
use s3xc.External.Http.{Http, Request}
use s3xc.Utils.Percent.{s3_percent_encode}
use s3xc.Server.S3Api.Params.{SigParams}

-- `query_params.retain(|(k, _)| k != "X-Amz-Signature")`
abbrev pub retain_unsigned : List (Text × Text) → List (Text × Text)
retain_unsigned [] = []
retain_unsigned (pair ∷ pairs) =
    let rest = retain_unsigned pairs in
    if not (text_eq pair.0 (codes "X-Amz-Signature")) then pair ∷ rest else rest

-- The pairs sorted by their keys, encoded and joined.
unfoldable pub canonical_query : List (Text × Text) → Text
canonical_query query_params = join (b'&' ∷ []) (
    map (λ pair. s3_percent_encode pair.0 ++ b'=' ∷ s3_percent_encode pair.1)
      (sort_by (λ pair. pair.0) query_params))

module _ (http : Http) where
  -- The value of a signed header; one that is missing or cannot be read counts as empty.
  unfoldable pub header_value : http.HeaderMap → Text → Text
  header_value headers header_name =
      unwrap_or
        (option_map (λ v. trim (unwrap_or (http.to_str v) [])) (http.get headers header_name)) []

  unfoldable pub canonical_headers : http.HeaderMap → List Text → Text
  unfolding header_value
  canonical_headers headers [] = []
  canonical_headers headers (header_name ∷ names) =
      (to_lowercase header_name ++ b':' ∷ header_value headers header_name ++ 10 ∷ [])
      ++ canonical_headers headers names

  unfoldable pub build_canonical_request : Request http → SigParams → Text
  unfolding canonical_query canonical_headers
  build_canonical_request req params =
      let hashed_payload =
        unwrap_or (http.get req.headers (codes "x-amz-content-sha256") >>= http.to_str)
          (codes "UNSIGNED-PAYLOAD") in
      req.method
      ++ 10 ∷ req.path
      ++ 10 ∷ canonical_query (retain_unsigned (http.form_parse (unwrap_or req.query [])))
      ++ 10 ∷ canonical_headers req.headers params.signed_headers
      ++ 10 ∷ join (b';' ∷ []) params.signed_headers
      ++ 10 ∷ hashed_payload
