-- ===== src/Server/S3Api.antt =====
-- `src/server/s3_api.rs`: who may make a request. The credentials, and the check of a signature of
-- version 4 in the headers or in the query of a request.
-- The parameters of a signature are read in Params, and the text that is signed is built in
-- Canonical.
pub mod Params
pub mod Canonical
pub mod Credentials
pub mod Checks
use s3xc.Prelude.{
  Bool, false, ◌&&◌, not, Option, none, some, List, [], ◌∷◌, ◌++◌, Bytes, Text, codes, text_eq,
  if◌then◌else◌,
}
use s3xc.Io.{Error, error, panic, diverges, Result, ok, err, bind_result, unwrap}
use s3xc.Checked.{◌>>=◌}
use s3xc.Options.{unwrap_or, or_else, option_map}
use s3xc.Options
use s3xc.Maps.{HashMap, insert, get}
use s3xc.Str.{is_empty}
use s3xc.Str.Unicode.{trim_unicode}
use s3xc.Str.Split.{split, splitn2}
use s3xc.External.Http.{Http, Crypto, Request}
use s3xc.Utils.Errors.{S3Error, invalid_access_key_id, signature_does_not_match, internal}
use s3xc.Server.Outcome.{Outcome, done, failed}
use Params.{SigParams, extract_from_headers, extract_from_query}
use Canonical.{build_canonical_request}

pub record SigV4Verifier : Type 0 where
  pub credentials : HashMap

-- `ClientCredentials` of `src/utils.rs`.
pub record ClientCredentials : Type 0 where
  pub access_key : Text
  pub secret_key : Text
  pub session_token : Option Text

-- One round of the loop: the parts of a credential that is split at its first colon.
add_credential : HashMap → List Text → HashMap
add_credential credentials (access_part ∷ secret_part ∷ []) =
    let access = trim_unicode access_part in
    let secret = trim_unicode secret_part in
    if not (is_empty access) && not (is_empty secret)
    then insert access secret credentials
    else credentials
add_credential credentials _ = credentials

unfoldable pub add_credentials : HashMap → List Text → HashMap
unfolding add_credential
add_credentials credentials [] = credentials
add_credentials credentials (cred ∷ creds) =
    add_credentials (add_credential credentials (splitn2 b':' cred)) creds

unfoldable pub new_from_str : Text → Option SigV4Verifier
unfolding add_credentials
new_from_str creds_str =
    let credentials = add_credentials [] (split b';' creds_str) in
    if is_empty (trim_unicode creds_str)
    then none
    else if is_empty credentials
    then none
    else some (record { credentials = credentials })

-- `std::env::var(..).ok()` is a parameter.
unfoldable pub new_from_env : (var : Text → Option Text) → Option SigV4Verifier
unfolding new_from_str
new_from_env var = or_else (Options.◌>>=◌ (var (codes "S3C_CREDENTIALS")) new_from_str) (
    Options.◌>>=◌ (var (codes "S3C_ACCESS_KEY")) λ access_key.
      Options.◌>>=◌ (var (codes "S3C_SECRET_KEY")) λ secret_key.
        if is_empty access_key
        then none
        else if is_empty secret_key
        then none
        else some (record { credentials = insert access_key secret_key [] }))

module _ (crypto : Crypto) where
  unfoldable pub hmac_sha256 : Bytes → Bytes → Result Bytes
  hmac_sha256 key data' = do
    mac ← unwrap (crypto.new_from_slice key)
    ok (crypto.finalize (crypto.update mac data'))

  unfoldable pub derive_signing_key : (secret_key date region service : Text) → Result Bytes
  unfolding hmac_sha256
  derive_signing_key secret_key date region service = do
    let secret = codes "AWS4" ++ secret_key
    k_date ← hmac_sha256 secret date
    k_region ← hmac_sha256 k_date region
    k_service ← hmac_sha256 k_region service
    hmac_sha256 k_service (codes "aws4_request")

-- `{date}/{region}/{service}/aws4_request`
abbrev pub credential_scope : SigParams → Text
credential_scope params =
    params.date ++ (b'/' ∷ params.region ++ (b'/' ∷ params.service ++ codes "/aws4_request"))

-- The text that is signed; 10 is the line feed.
abbrev pub string_to_sign : SigParams → (canonical_hash : Text) → Text
string_to_sign params canonical_hash =
    codes "AWS4-HMAC-SHA256"
    ++ 10 ∷ params.datetime
    ++ 10 ∷ credential_scope params
    ++ 10 ∷ canonical_hash

module _ (http : Http) where
  -- The signature in the headers, or else the one in the query.
  unfoldable pub sig_params : Request http → Option SigParams
  unfolding extract_from_headers extract_from_query
  sig_params req =
      or_else (extract_from_headers http req.headers)
        (extract_from_query http (unwrap_or req.query []))

  unfoldable pub session_token : Request http → Option Text
  session_token req =
      or_else (Options.◌>>=◌ (http.get req.headers (codes "x-amz-security-token")) http.to_str)
        (Options.◌>>=◌ req.query λ q. get (codes "X-Amz-Security-Token") (http.form_parse q))

module _ (http : Http) (crypto : Crypto) where
  -- Steps 6 and 7: the signature that was expected against the one in the request.
  unfoldable pub compare_signature :
      Request http
      → SigParams
      → (secret_key : Text) → (to_sign : Text) → Result crypto.Mac
      → Result (Outcome ClientCredentials)
  unfolding session_token
  compare_signature req params secret_key to_sign (ok mac) =
      let expected_signature = crypto.hex_encode (crypto.finalize (crypto.update mac to_sign)) in
      if not (text_eq expected_signature params.signature)
      then ok (failed signature_does_not_match)
      else ok (
          done (record {
            access_key = params.access_key;
            secret_key = secret_key;
            session_token = session_token http req;
          }))
  compare_signature req params secret_key to_sign (err (error t)) =
      ok (failed (internal (error (codes "HMAC init failed: " ++ t))))
  compare_signature req params secret_key to_sign (err panic) = err panic
  compare_signature req params secret_key to_sign (err diverges) = err diverges

  -- Steps 3 to 7, for an access key that is registered.
  unfoldable pub check_signature :
      Request http → SigParams → (secret_key : Text) → Result (Outcome ClientCredentials)
  unfolding build_canonical_request derive_signing_key compare_signature
  check_signature req params secret_key = do
    let canonical_req = build_canonical_request http req params
    let canonical_hash = crypto.hex_encode (crypto.sha256 canonical_req)
    signing_key ← derive_signing_key crypto secret_key params.date params.region params.service
    compare_signature req params secret_key (string_to_sign params canonical_hash)
        (crypto.new_from_slice signing_key)

  unfoldable pub check_params :
      SigV4Verifier → Request http → Option SigParams → Result (Outcome ClientCredentials)
  unfolding check_signature
  check_params v req none = ok (failed invalid_access_key_id)
  check_params v req (some params) = elim (get params.access_key v.credentials) [
    | none ↦ ok (failed invalid_access_key_id)
    | some secret_key ↦ check_signature req params secret_key
  ]

  unfoldable pub verify : SigV4Verifier → Request http → Result (Outcome ClientCredentials)
  unfolding check_params sig_params
  verify v req = check_params v req (sig_params http req)
