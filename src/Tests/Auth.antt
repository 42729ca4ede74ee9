-- ===== src/Tests/Auth.antt =====
-- Signed requests at concrete inputs.
use s3xc.Prelude.{
  ℕ, ◌≡◌, ◌↔◌, refl, false, Option, none, some, List, [], ◌∷◌, ◌++◌, Text, codes, All, arith,
  text_eq, ◌+◌,
}
use s3xc.Io.{Result, ok, Io}
use s3xc.Maps.{extend, get}
use s3xc.Str.Unicode.{trim_unicode}
use s3xc.Str.{is_empty, trim, join, find, starts_with, trim_start_matches}
use s3xc.Str.Sort.{sort_by}
use s3xc.Str.Split.{Lacks, split, splitn2}
use s3xc.External.Http.{Request, IsVisible, same_name}
use s3xc.External.Url.{Outgoing}
use s3xc.Utils.Errors.{S3ErrorXml}
use s3xc.Server.Outcome.{done}
use s3xc.Server.S3Api.{SigV4Verifier, ClientCredentials, session_token, new_from_str, verify}
use s3xc.Server.S3Api.Checks.{Verdict, verify-Verdict, IsSigned, verify-IsSigned}
use s3xc.Server.S3Api.Credentials.{written, IsCredential, new_from_str-written}
use s3xc.Server.Middleware.{Reply, answered, s3_auth_middleware}
use s3xc.Server.Middleware.Guard.{Guarded, s3_auth_middleware-Guarded}
use s3xc.Server.Handlers.{no_body}
use s3xc.Proxy.{ProxyClient, sig_v4, path_style}
use s3xc.Proxy.Target.{build_url}
use s3xc.Proxy.Sign.{prepare_request}
use s3xc.Proxy.Agree.Request.{received}
use s3xc.Proxy.Agree.Signing.{IsPart}
use s3xc.Proxy.Agree.Accepted.{prepare_request-verify}
use s3xc.Tests.Web.{
  http, http_works, crypto, crypto_works, urls, visible, visible_text, visible_text-IsVisible,
}

abbrev pub verifier : SigV4Verifier
verifier = record { credentials = (codes "other", codes "x") ∷ (codes "ak", codes "sk") ∷ [] }

abbrev client : ProxyClient
client = record {
  signer = sig_v4 (codes "ak") (codes "sk") (codes "eu");
  path_scheme = path_style;
  upstream_endpoint = codes "up";
  upstream_region = codes "eu";
}

abbrev pub datetime : Text
datetime = codes "20261125T160000Z"

ak-IsPart : IsPart (codes "ak")
unfolding visible_text visible
ak-IsPart = record {
  no_slash = ground arith;
  no_comma = ground arith;
  visible = visible_text-IsVisible (codes "ak") refl;
}

eu-IsPart : IsPart (codes "eu")
unfolding visible_text visible
eu-IsPart = record {
  no_slash = ground arith;
  no_comma = ground arith;
  visible = visible_text-IsVisible (codes "eu") refl;
}

pub datetime-IsPart : IsPart datetime
unfolding visible_text visible
datetime-IsPart = record {
  no_slash = ground arith;
  no_comma = ground arith;
  visible = visible_text-IsVisible datetime refl;
}

pub up-IsVisible : All IsVisible (codes "up")
unfolding visible_text visible
up-IsVisible = visible_text-IsVisible (codes "up") refl

abbrev target : urls.Url
target = (codes "up", codes "/b/k", none)

known : get (codes "ak") verifier.credentials ≡ some (codes "sk")
unfolding get text_eq
known = refl

built : build_url urls client (some (codes "b")) (codes "k") ≡ ok target
unfolding build_url trim_start_matches find
built = refl

prepare_request-verify_example :
    (out : Outgoing http urls) × (prepare_request http crypto urls client datetime
        (codes "GET")
        (some (codes "b"))
        (codes "k")
        http.no_headers
        none
      ≡ ok out)
    × (verify http crypto verifier (received urls out.method out.url out.headers)
        ≡ ok (
            done (record {
              access_key = codes "ak";
              secret_key = codes "sk";
              session_token = session_token http (received urls out.method out.url out.headers);
            })))
prepare_request-verify_example =
    prepare_request-verify http http_works crypto crypto_works urls verifier client (codes "ak")
      (codes "sk") (codes "eu") datetime (codes "GET") (some (codes "b")) (codes "k")
      http.no_headers none target refl known ak-IsPart eu-IsPart datetime-IsPart (omega arith) built
      up-IsVisible refl

-- A request whose signature is this digit.
unfoldable pub signed : Text → Request http
unfolding http
signed digit = record {
  method = codes "GET";
  path = codes "/b/k";
  query = none;
  headers =
      (
        codes "authorization",
        codes
              "AWS4-HMAC-SHA256 Credential=ak/20261125/eu/s3/aws4_request, SignedHeaders=x-amz-date, Signature="
            ++ digit,
      )
      ∷ (codes "x-amz-date", datetime)
      ∷ [];
}

abbrev pub creds : ClientCredentials
creds = record { access_key = codes "ak"; secret_key = codes "sk"; session_token = none }

-- The digit of the code is right in one of these, and the request without headers has none.
pub accepts : verify http crypto verifier (signed (codes "8")) ≡ ok (done creds)
unfolding signed verify http crypto same_name starts_with split trim splitn2 get join sort_by
accepts = refl

verify-IsSigned_example :
    (verify http crypto verifier (signed (codes "8")) ≡ ok (done creds))
    ↔ IsSigned http crypto crypto_works verifier (signed (codes "8")) creds
verify-IsSigned_example =
    verify-IsSigned http crypto crypto_works verifier (signed (codes "8")) creds

verify-Verdict_example :
    Verdict http crypto crypto_works verifier
      (signed (codes "0"))
      (verify http crypto verifier (signed (codes "0")))
verify-Verdict_example = verify-Verdict http crypto crypto_works verifier (signed (codes "0"))

-- What comes behind the check: it counts the requests.
abbrev counter : Option ClientCredentials → Io ℕ (Reply http)
counter c n =
    (ok (answered (record { status = 200; headers = http.no_headers; body = no_body })), n + 1)

abbrev pub to_string : S3ErrorXml → Result Text
to_string e = ok e.code

s3_auth_middleware-Guarded_example :
    Guarded http crypto crypto_works to_string verifier
      (signed (codes "0"))
      counter
      7
      (s3_auth_middleware http crypto to_string (some verifier) (signed (codes "0")) counter 7)
s3_auth_middleware-Guarded_example =
    s3_auth_middleware-Guarded http crypto crypto_works to_string verifier (signed (codes "0"))
      counter 7

abbrev listed : Text × Text
listed = (codes "ak", codes "s:k")

abbrev others : List (Text × Text)
others = (codes "b", codes "2") ∷ (codes "ak", codes "new") ∷ []

listed-IsCredential : All IsCredential (listed ∷ others)
unfolding trim_unicode
listed-IsCredential = (
  one (codes "ak") (codes "s:k") refl refl refl refl (ground arith) (ground arith),
  (
    one (codes "b") (codes "2") refl refl refl refl (ground arith) (ground arith),
    (one (codes "ak") (codes "new") refl refl refl refl (ground arith) (ground arith), tt),
  ),
)
  where
    one :
        (a s : Text)
        → is_empty a ≡ false
        → is_empty s ≡ false
        → trim_unicode a ≡ a
        → trim_unicode s ≡ s
        → Lacks b':' a
        → Lacks b';' (written (a, s))
        → IsCredential (a, s)
    one a s e f g h i j = record {
      some_access = e;
      some_secret = f;
      trimmed_access = g;
      trimmed_secret = h;
      no_colon = i;
      no_semicolon = j;
    }

new_from_str-written_example :
    new_from_str (codes "ak:s:k;b:2;ak:new")
    ≡ some (record { credentials = extend [] (listed ∷ others) })
unfolding join trim_unicode
new_from_str-written_example = new_from_str-written listed others listed-IsCredential refl
