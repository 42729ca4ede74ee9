-- ===== src/Server/S3Api/Checks.antt =====
-- Which requests `verify` accepts: those that a registered key has signed.
use s3xc.Prelude.{
  ◌≡◌, ◌≢◌, ◌↔◌, refl, sym, ap, subst, inl, inr, Bool, true, false, not, none, some, ◌++◌, Bytes,
  Text, codes, text_eq, text_eq_iff, Bool-cases, Option-cases, arith, if◌then◌else◌,
}
use s3xc.Io.{Result, ok}
use s3xc.Maps.{get}
use s3xc.External.Http.{Http, Crypto, Request, CryptoWorks}
use s3xc.Utils.Errors.{invalid_access_key_id, signature_does_not_match}
use s3xc.Server.Outcome.{Outcome, done, failed}
use s3xc.Server.S3Api.{
  SigV4Verifier, ClientCredentials, hmac_sha256, derive_signing_key, string_to_sign, sig_params,
  session_token, compare_signature, check_signature, check_params, verify,
}
use s3xc.Server.S3Api.Params.{SigParams}
use s3xc.Server.S3Api.Canonical.{build_canonical_request}

module _ (crypto : Crypto) (works : CryptoWorks crypto) where
  -- The chain of codes that makes the key of a day, a region and a service.
  abbrev pub chain : (secret date region service : Text) → Bytes
  chain secret date region service =
      works.hmac (works.hmac (works.hmac (works.hmac (codes "AWS4" ++ secret) date) region) service)
        (codes "aws4_request")

  pub hmac_sha256_lem : (k d : Bytes) → hmac_sha256 crypto k d ≡ ok (works.hmac k d)
  unfolding hmac_sha256
  hmac_sha256_lem k d = let (mac, made, code) = works.hmac_lem k d in rw made (ap ok code)

  pub derive_signing_key_lem :
      (secret date region service : Text)
      → derive_signing_key crypto secret date region service ≡ ok (chain secret date region service)
  unfolding derive_signing_key
  derive_signing_key_lem secret date region service = simp hmac_sha256_lem

module _ (http : Http) (crypto : Crypto) (works : CryptoWorks crypto) where
  -- The signature of a request under a secret key.
  abbrev pub signature_of : (secret : Text) → Request http → SigParams → Text
  signature_of secret req p = crypto.hex_encode (
      works.hmac (chain crypto works secret p.date p.region p.service)
        (string_to_sign p (crypto.hex_encode (crypto.sha256 (build_canonical_request http req p)))))

  -- The request carries the signature that the registered secret of its access key gives.
  pub record IsSigned (v : SigV4Verifier) (req : Request http) (c : ClientCredentials)
      : Type 0 where
    pub params : SigParams
    pub found : sig_params http req ≡ some params
    pub access : c.access_key ≡ params.access_key
    pub registered : get params.access_key v.credentials ≡ some c.secret_key
    pub signed : params.signature ≡ signature_of c.secret_key req params
    pub token : c.session_token ≡ session_token http req

  pub check_signature_lem :
      (req : Request http) (p : SigParams) (secret : Text)
      → check_signature http crypto req p secret ≡ (
          if not (text_eq (signature_of secret req p) p.signature)
          then ok (failed signature_does_not_match)
          else ok (
              done (record {
                access_key = p.access_key;
                secret_key = secret;
                session_token = session_token http req;
              })))
  unfolding check_signature compare_signature
  check_signature_lem req p secret =
      let (mac, made, code) = works.hmac_lem (chain crypto works secret p.date p.region p.service) (
        string_to_sign p
          (crypto.hex_encode (crypto.sha256 (build_canonical_request http req p)))) in
      rw (derive_signing_key_lem crypto works secret p.date p.region p.service, made, code) refl

  registered_lem :
      (v : SigV4Verifier) (req : Request http) (p : SigParams) (secret : Text)
      → sig_params http req ≡ some p
      → get p.access_key v.credentials ≡ some secret
      → verify http crypto v req ≡ check_signature http crypto req p secret
  unfolding verify check_params
  registered_lem v req p secret found there = rw (found, check_params, there) refl

  unknown_lem :
      (v : SigV4Verifier) (req : Request http)
      → ((p : SigParams) (secret : Text)
          → sig_params http req ≡ some p
          → get p.access_key v.credentials ≢ some secret)
      → verify http crypto v req ≡ ok (failed invalid_access_key_id)
  unfolding verify check_params
  unknown_lem v req unknown = elim (Option-cases (sig_params http req)) [
    | inl missing ↦ rw missing refl
    | inr (p, found) ↦ elim (Option-cases (get p.access_key v.credentials)) [
      | inl gone ↦ rw (found, check_params, gone) refl
      | inr (secret, there) ↦ absurd (unknown p secret found there)
    ]
  ]

  -- The three answers of the check: accepted, and then signed by a registered key; refused for its
  -- key, if it has no signature or one of an unknown key; refused for its signature, if a
  -- registered key is named and gives another.
  pub data Verdict (v : SigV4Verifier) (req : Request http)
      : Result (Outcome ClientCredentials) → Type 0 where
    accepted : (c : ClientCredentials) → IsSigned v req c → Verdict v req (ok (done c))
    unknown :
        ((p : SigParams) (secret : Text)
          → sig_params http req ≡ some p
          → get p.access_key v.credentials ≢ some secret)
        → Verdict v req (ok (failed invalid_access_key_id))
    mismatched :
        (p : SigParams) (secret : Text)
        → sig_params http req ≡ some p
        → get p.access_key v.credentials ≡ some secret
        → p.signature ≢ signature_of secret req p
        → Verdict v req (ok (failed signature_does_not_match))

  no_params :
      (req : Request http)
      → sig_params http req ≡ none
      → (v : SigV4Verifier) (p : SigParams) (secret : Text) → sig_params http req ≡ some p
      → get p.access_key v.credentials ≢ some secret
  no_params req missing v p secret found there = cc

  no_key :
      (v : SigV4Verifier) (req : Request http) (p : SigParams)
      → sig_params http req ≡ some p
      → get p.access_key v.credentials ≡ none
      → (q : SigParams) (secret : Text) → sig_params http req ≡ some q
      → get q.access_key v.credentials ≢ some secret
  no_key v req p found gone q secret found' there = cc

  known-Verdict :
      (v : SigV4Verifier) (req : Request http) (p : SigParams) (secret : Text)
      → sig_params http req ≡ some p
      → get p.access_key v.credentials ≡ some secret
      → Verdict v req (check_signature http crypto req p secret)
  known-Verdict v req p secret found there =
      let same = text_eq_iff (signature_of secret req p) p.signature in
      elim (Bool-cases (text_eq (signature_of secret req p) p.signature)) [
        | inl right ↦
            rw (check_signature_lem req p secret, right)
              (accepted _ (record {
                params = p;
                found = found;
                access = refl;
                registered = there;
                signed = sym (same.0 right);
                token = refl;
              }))
        | inr wrong ↦
            rw (check_signature_lem req p secret, wrong)
              (mismatched p secret found there λ e. absurd (not_both (same.1 (sym e)) wrong))
      ]
    where
      not_both : {b : Bool} → b ≡ true → b ≡ false → ⊥
      not_both t f = cc

  -- The check always answers: it accepts a request that a registered key has signed, and tells whose
  -- it is; it refuses the key where the request has no signature or names no registered key, and the
  -- signature where that of the registered key is another.
  pub verify-Verdict :
      (v : SigV4Verifier) (req : Request http) → Verdict v req (verify http crypto v req)
  verify-Verdict v req = elim (Option-cases (sig_params http req)) [
    | inl missing ↦
        rw (unknown_lem v req (no_params req missing v)) (unknown (no_params req missing v))
    | inr (p, found) ↦ elim (Option-cases (get p.access_key v.credentials)) [
      | inl gone ↦
          rw (unknown_lem v req (no_key v req p found gone)) (unknown (no_key v req p found gone))
      | inr (secret, there) ↦
          rw (registered_lem v req p secret found there) (known-Verdict v req p secret found there)
    ]
  ]

  -- A request is accepted exactly when its signature is the one that a registered key gives, and then
  -- for that key, with the session token that it carries.
  pub verify-IsSigned :
      (v : SigV4Verifier) (req : Request http) (c : ClientCredentials)
      → (verify http crypto v req ≡ ok (done c)) ↔ IsSigned v req c
  verify-IsSigned v req c = (only (verify-Verdict v req), λ s. signed_lem s)
    where
      only :
          {r : Result (Outcome ClientCredentials)}
          → Verdict v req r
          → r ≡ ok (done c)
          → IsSigned v req c
      only (accepted d s) e = subst (IsSigned v req) (the e) s
        where
          the : {d : ClientCredentials} → ok (done d) ≡ ok (done c) → d ≡ c
          the e = cc
      only (unknown u) e = cc
      only (mismatched p secret found there wrong) e = cc

      signed_lem : IsSigned v req c → verify http crypto v req ≡ ok (done c)
      signed_lem s =
          let same = text_eq_iff (signature_of c.secret_key req s.params) s.params.signature in
          rw
            (
              registered_lem v req s.params c.secret_key s.found s.registered,
              check_signature_lem req s.params c.secret_key,
              same.1 (sym s.signed),
            )
            (ground (arith, s.access, s.token))
