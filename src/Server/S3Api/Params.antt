-- ===== src/Server/S3Api/Params.antt =====
-- `SigParams`, `extract_from_headers` and `extract_from_query` of `src/server/s3_api.rs`.
use s3xc.Prelude.{
  ◌||◌, Option, none, some, List, [], ◌∷◌, Text, codes, drop, text_eq, if◌then◌else◌,
}
use s3xc.Options.{◌>>=◌, or_else}
use s3xc.Maps.{extend, get}
use s3xc.Str.{starts_with, is_empty, trim}
use s3xc.Str.Split.{split, splitn2}
use s3xc.External.Http.{Http}

pub record SigParams : Type 0 where
  pub access_key : Text
  pub date : Text
  pub datetime : Text
  pub region : Text
  pub service : Text
  pub signed_headers : List Text
  pub signature : Text

-- The three variables that the loop over the parts of the header fills.
pub record AuthParts : Type 0 where
  pub credential : Text
  pub signed_headers_str : Text
  pub signature : Text

unfoldable pub auth_part : AuthParts → List Text → AuthParts
auth_part found (name ∷ value ∷ []) =
    if text_eq name (codes "Credential")
    then record found { credential = value }
    else if text_eq name (codes "SignedHeaders")
    then record found { signed_headers_str = value }
    else if text_eq name (codes "Signature")
    then record found { signature = value }
    else found
auth_part found _ = found

unfoldable pub auth_parts : AuthParts → List Text → AuthParts
unfolding auth_part
auth_parts found [] = found
auth_parts found (part ∷ parts) = auth_parts (auth_part found (splitn2 b'=' (trim part))) parts

-- The first four of at least five parts of a credential.
abbrev pub scope_parts : List Text → Option (Text × Text × Text × Text)
scope_parts (access_key ∷ date ∷ region ∷ service ∷ terminator ∷ more) =
    some (access_key, date, region, service)
scope_parts _ = none

unfoldable pub sig_params_of :
    (credential datetime signed_headers_str signature : Text) → Option SigParams
sig_params_of credential datetime signed_headers_str signature = do
  cred_parts ← scope_parts (split b'/' credential)
  some (record {
    access_key = cred_parts.0;
    date = cred_parts.1;
    datetime = datetime;
    region = cred_parts.2;
    service = cred_parts.3;
    signed_headers = split b';' signed_headers_str;
    signature = signature;
  })

abbrev pub algorithm_prefix : Text
algorithm_prefix = codes "AWS4-HMAC-SHA256 "

module _ (http : Http) where
  -- `headers.get(name).and_then(|h| h.to_str().ok())`
  abbrev pub header_str : http.HeaderMap → Text → Option Text
  header_str headers name = http.get headers name >>= http.to_str

  -- The fields of an `Authorization` header behind its prefix, none of which may be empty. The date is
  -- looked for after the credential was split; both are needed.
  unfoldable pub auth_params : http.HeaderMap → AuthParts → Option SigParams
  unfolding sig_params_of
  auth_params headers found =
      if is_empty found.credential || is_empty found.signed_headers_str || is_empty found.signature
      then none
      else (do
        datetime ←
            or_else (header_str headers (codes "x-amz-date")) (header_str headers (codes "date"))
        sig_params_of found.credential datetime found.signed_headers_str found.signature)

  unfoldable pub extract_from_headers : http.HeaderMap → Option SigParams
  unfolding auth_params auth_parts
  extract_from_headers headers = do
    auth_val ← header_str headers (codes "authorization")
    let nothing : AuthParts = record { credential = []; signed_headers_str = []; signature = [] }
    let parts = trim (drop 17 auth_val)
    if starts_with auth_val algorithm_prefix
        then auth_params headers (auth_parts nothing (split b',' parts))
        else none

  unfoldable pub extract_from_query : Text → Option SigParams
  unfolding sig_params_of
  extract_from_query query = do
    let params = extend [] (http.form_parse query)
    algorithm ← get (codes "X-Amz-Algorithm") params
    if text_eq algorithm (codes "AWS4-HMAC-SHA256")
        then (do
          credential ← get (codes "X-Amz-Credential") params
          datetime ← get (codes "X-Amz-Date") params
          signed_headers_str ← get (codes "X-Amz-SignedHeaders") params
          signature ← get (codes "X-Amz-Signature") params
          sig_params_of credential datetime signed_headers_str signature)
        else none
