-- ===== src/Proxy/Sign.antt =====
-- `prepare_request` of `src/proxy/mod.rs`: the headers of a request to upstream, and its signature.
use s3xc.Prelude.{
  Bool, true, false, Option, none, some, List, [], ◌∷◌, ◌++◌, map, Bytes, Text, codes, take, length,
  ltb, if◌then◌else◌,
}
use s3xc.Io.{Result, ok, err, panic, unwrap}
use s3xc.Checked.{◌>>=◌}
use s3xc.Options
use s3xc.Options.{option_map, unwrap_or}
use s3xc.Str.{trim, join}
use s3xc.Str.Decimal.{print}
use s3xc.Str.Sort.{sort_by}
use s3xc.External.Http.{Http, Crypto}
use s3xc.External.Url.{Urls, Outgoing}
use s3xc.Utils.Percent.{s3_percent_encode}
use s3xc.Proxy.{ProxyClient, AuthSigner, anonymous, sig_v4}
use s3xc.Proxy.Target.{build_url}

module _ (crypto : Crypto) where
  unfoldable pub hmac_sha256 : Bytes → Bytes → Result Bytes
  hmac_sha256 key data' = do
    mac ← unwrap (crypto.new_from_slice key)
    ok (crypto.finalize (crypto.update mac data'))

  -- The chain of keys for the service `s3`.
  unfoldable pub signing_key : (secret_key date region : Text) → Result Bytes
  unfolding hmac_sha256
  signing_key secret_key date region = do
    let secret = codes "AWS4" ++ secret_key
    k_date ← hmac_sha256 secret date
    k_region ← hmac_sha256 k_date region
    k_service ← hmac_sha256 k_region (codes "s3")
    hmac_sha256 k_service (codes "aws4_request")

-- The hash of no bytes.
abbrev pub empty_hash : Text
empty_hash = codes "e3b0c44298fc1c149afbf4c8996fb92427ae41e4649b934ca495991b7852b855"

-- `datetime[0..8]`, which panics on a shorter text.
unfoldable pub date_of : Text → Result Text
date_of datetime = if ltb (length datetime) 8 then err panic else ok (take 8 datetime)

-- `{date}/{region}/s3/aws4_request`
abbrev pub credential_scope : (date region : Text) → Text
credential_scope date region = date ++ (b'/' ∷ region ++ codes "/s3/aws4_request")

-- `AWS4-HMAC-SHA256 Credential=.., SignedHeaders=.., Signature=..`
abbrev pub auth_header : (access_key scope signed_headers_list signature : Text) → Text
auth_header access_key scope signed_headers_list signature =
    codes "AWS4-HMAC-SHA256 Credential="
    ++ ((access_key ++ b'/' ∷ scope)
        ++ (codes ", SignedHeaders="
            ++ (signed_headers_list ++ (codes ", Signature=" ++ signature))))

-- The pairs sorted by their keys, encoded and joined.
unfoldable pub canonical_query : List (Text × Text) → Text
canonical_query query_params = join (b'&' ∷ []) (
    map (λ pair. s3_percent_encode pair.0 ++ b'=' ∷ s3_percent_encode pair.1)
      (sort_by (λ pair. pair.0) query_params))

abbrev pub when : Bool → Text → List Text → List Text
when true name names = names ++ name ∷ []
when false name names = names

module _ (http : Http) where
  unfoldable pub header_value : http.HeaderMap → Text → Text
  header_value headers header_name =
      unwrap_or
        (option_map (λ v. trim (unwrap_or (http.to_str v) [])) (http.get headers header_name)) []

  unfoldable pub canonical_headers : http.HeaderMap → List Text → Text
  unfolding header_value
  canonical_headers headers [] = []
  canonical_headers headers (header_name ∷ names) =
      (header_name ++ b':' ∷ header_value headers header_name ++ 10 ∷ [])
      ++ canonical_headers headers names

  -- The headers that are signed: three, and two more where they are there.
  unfoldable pub signed_headers : http.HeaderMap → List Text
  signed_headers headers =
      let always = codes "host" ∷ codes "x-amz-content-sha256" ∷ codes "x-amz-date" ∷ [] in
      let ranged = when (http.contains_key headers (codes "range")) (codes "range") always in
      sort_by (λ s. s)
        (when (http.contains_key headers (codes "x-amz-copy-source")) (codes "x-amz-copy-source")
          ranged)

module _ (http : Http) (crypto : Crypto) (urls : Urls) where
  unfoldable pub payload_hash : http.HeaderMap → Option Bytes → Text
  payload_hash headers body_bytes =
      elim (Options.◌>>=◌ (http.get headers (codes "x-amz-content-sha256")) http.to_str) [
        | some val ↦ val
        | none ↦ elim body_bytes [
          | some body ↦ crypto.hex_encode (crypto.sha256 body)
          | none ↦ empty_hash
        ]
      ]

  unfoldable pub canonical_request :
      (method : Text) → urls.Url → http.HeaderMap → (hash : Text) → Text
  unfolding canonical_query canonical_headers signed_headers
  canonical_request method url headers hash =
      let query_params = unwrap_or (option_map http.form_parse (urls.query url)) [] in
      method
      ++ 10 ∷ urls.path url
      ++ 10 ∷ canonical_query query_params
      ++ 10 ∷ canonical_headers http headers (signed_headers http headers)
      ++ 10 ∷ join (b';' ∷ []) (signed_headers http headers)
      ++ 10 ∷ hash

  abbrev pub string_to_sign : (datetime scope canonical_req : Text) → Text
  string_to_sign datetime scope canonical_req =
      codes "AWS4-HMAC-SHA256"
      ++ 10 ∷ datetime
      ++ 10 ∷ scope
      ++ 10 ∷ crypto.hex_encode (crypto.sha256 canonical_req)

  -- The value of `Authorization`, once the other headers are there.
  unfoldable pub authorization :
      (access_key secret_key region datetime date method : Text)
      → urls.Url
      → http.HeaderMap
      → (hash : Text) → Result Text
  unfolding canonical_request signing_key signed_headers
  authorization access_key secret_key region datetime date method url headers hash = do
    let scope = credential_scope date region
    let to_sign = string_to_sign datetime scope (canonical_request method url headers hash)
    k_signing ← signing_key crypto secret_key date region
    mac ← unwrap (crypto.new_from_slice k_signing)
    let signature = crypto.hex_encode (crypto.finalize (crypto.update mac to_sign))
    ok (auth_header access_key scope (join (b';' ∷ []) (signed_headers http headers)) signature)

  -- The headers that a signature needs and the signature, at the time `datetime`.
  unfoldable pub sign_headers :
      AuthSigner
      → (datetime method : Text) → urls.Url
      → http.HeaderMap
      → Option Bytes
      → Result http.HeaderMap
  unfolding date_of payload_hash authorization
  sign_headers anonymous datetime method url headers body_bytes = ok headers
  sign_headers (sig_v4 access_key secret_key region) datetime method url headers body_bytes = do
    date ← date_of datetime
    date_value ← http.parse datetime
    let dated = http.insert headers (codes "x-amz-date") date_value
    let hash = payload_hash dated body_bytes
    hash_value ← http.parse hash
    let hashed = http.insert dated (codes "x-amz-content-sha256") hash_value
    auth ← authorization access_key secret_key region datetime date method url hashed hash
    auth_value ← http.parse auth
    ok (http.insert hashed (codes "authorization") auth_value)

  -- The host, and the port if the URL names one.
  abbrev pub host_val : urls.Url → Text
  host_val url = elim (urls.port url) [
    | some port ↦ unwrap_or (urls.host_str url) [] ++ b':' ∷ print port
    | none ↦ unwrap_or (urls.host_str url) []
  ]

  unfoldable pub prepare_request :
      ProxyClient
      → (datetime method : Text) → (bucket : Option Text) → (key_and_query : Text) → http.HeaderMap
      → Option Bytes
      → Result (Outgoing http urls)
  unfolding build_url sign_headers
  prepare_request c datetime method bucket key_and_query headers body_bytes = do
    url ← build_url urls c bucket key_and_query
    host ← http.parse (host_val url)
    let hosted = http.insert headers (codes "host") host
    signed ← sign_headers c.signer datetime method url hosted body_bytes
    ok (record { method = method; url = url; headers = signed; body = body_bytes; stream = none })
