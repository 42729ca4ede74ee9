-- ===== src/Server/Middleware/Guard.antt =====
-- Behind the signature check nothing runs for a request that no registered key has signed.
use s3xc.Prelude.{◌≡◌, refl, ◌⊎◌, inl, inr, Option, some, Text}
use s3xc.Io.{Result, ok, Io}
use s3xc.Utils.Errors
use s3xc.Utils.Errors.{S3ErrorXml, into_response, to_xml}
use s3xc.External.Http.{Http, Crypto, CryptoWorks, Request}
use s3xc.Server.Outcome.{Outcome}
use s3xc.Server.S3Api.{SigV4Verifier, ClientCredentials}
use s3xc.Server.S3Api.Checks.{IsSigned, Verdict, accepted, unknown, mismatched, verify-Verdict}
use s3xc.Server.Middleware.{Reply, refused, admit, s3_auth_middleware}

module _ (http : Http) (crypto : Crypto) (works : CryptoWorks crypto)
    (to_string : S3ErrorXml → Result Text) {S : Type 0} where
  -- The next step ran for a signed request, or nothing did and the answer is 403.
  abbrev pub Guarded :
      SigV4Verifier
      → Request http
      → (next : Option ClientCredentials → Io S (Reply http)) → S
      → Result (Reply http) × S
      → Type 0
  Guarded v req next s r =
      ((c : ClientCredentials) × IsSigned http crypto works v req c × (r ≡ next (some c) s))
      ⊎ ((response : Errors.Response) × (r ≡ (ok (refused response), s)) × (response.status ≡ 403))

  admit-Guarded :
      (v : SigV4Verifier) (req : Request http) (next : Option ClientCredentials → Io S (Reply http))
      (s : S) (r : Result (Outcome ClientCredentials))
      → Verdict http crypto works v req r
      → Guarded v req next s (admit http crypto to_string next r s)
  unfolding into_response to_xml
  admit-Guarded v req next s r (accepted c signed) = inl (c, signed, refl)
  admit-Guarded v req next s r (unknown none_such) = inr (_, refl, refl)
  admit-Guarded v req next s r (mismatched p secret found there other) = inr (_, refl, refl)

  -- With a verifier, what comes next runs only for a request that a registered key has signed, and
  -- then with its credentials; any other is answered with status 403, and the state is as it was.
  pub s3_auth_middleware-Guarded :
      (v : SigV4Verifier) (req : Request http) (next : Option ClientCredentials → Io S (Reply http))
      (s : S)
      → Guarded v req next s (s3_auth_middleware http crypto to_string (some v) req next s)
  unfolding s3_auth_middleware
  s3_auth_middleware-Guarded v req next s =
      admit-Guarded v req next s _ (verify-Verdict http crypto works v req)
