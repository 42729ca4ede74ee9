-- ===== src/Utils/Errors.antt =====
-- `S3Error` of `src/utils.rs` and its XML document. `quick_xml::se::to_string` is a parameter.
use s3xc.Prelude.{ℕ, Option, none, List, [], ◌∷◌, ◌++◌, Text, codes}
use s3xc.Io.{Error, Result, ok, err}

pub data S3Error : Type 0 where
  no_such_key no_such_bucket invalid_access_key_id signature_does_not_match : S3Error
  internal : Error → S3Error

pub record S3ErrorXml : Type 0 where
  pub code : Text
  pub message : Text
  pub resource : Option Text
  pub request_id : Text

-- The status, the code and the message.
abbrev parts : S3Error → ℕ × Text × Text
parts no_such_key = (404, codes "NoSuchKey", codes "The specified key does not exist.")
parts no_such_bucket = (404, codes "NoSuchBucket", codes "The specified bucket does not exist.")
parts invalid_access_key_id = (
  403,
  codes "InvalidAccessKeyId",
  codes "The AWS Access Key Id you provided does not exist in our records.",
)
parts signature_does_not_match = (
  403,
  codes "SignatureDoesNotMatch",
  codes "The request signature we calculated does not match the signature you provided.",
)
parts (internal e) =
    (500, codes "InternalError", codes "We encountered an internal error. Please try again.")

-- `<?xml version="1.0" encoding="UTF-8"?>` and a line feed; 34 is the double quote.
abbrev pub xml_declaration : Text
xml_declaration =
    codes "<?xml version="
    ++ 34 ∷ codes "1.0"
    ++ 34 ∷ codes " encoding="
    ++ 34 ∷ codes "UTF-8"
    ++ 34 ∷ codes "?>"
    ++ 10 ∷ []

abbrev document : Result Text → Text
document (ok s) = xml_declaration ++ s
document (err e) =
    xml_declaration
    ++ codes
        "<Error><Code>InternalError</Code><Message>Failed to serialize error XML</Message></Error>"

unfoldable pub to_xml : (to_string : S3ErrorXml → Result Text) → S3Error → ℕ × Text
to_xml to_string e =
    let (status, code, msg) = parts e in
    let xml_struct : S3ErrorXml = record {
      code = code;
      message = msg;
      resource = none;
      request_id = codes "tx000000000000000000001";
    } in
    (status, document (to_string xml_struct))

-- The answer to a request that failed.
pub record Response : Type 0 where
  pub status : ℕ
  pub headers : List (Text × Text)
  pub body : Text

unfoldable pub into_response : (to_string : S3ErrorXml → Result Text) → S3Error → Response
into_response to_string e =
    let (status, xml_body) = to_xml to_string e in
    record {
      status = status;
      headers = (codes "Content-Type", codes "application/xml") ∷ [];
      body = xml_body;
    }
