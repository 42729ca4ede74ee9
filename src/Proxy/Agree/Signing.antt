-- ===== src/Proxy/Agree/Signing.antt =====
-- What `prepare_request` of `src/proxy/mod.rs` puts into the headers of a request that it signs.
use s3xc.Prelude.{
  ◌≤◌, ◌≡◌, refl, ap, false, true, Option, none, some, ◌∷◌, ◌++◌, Bytes, Text, Bool, codes, All,
  arith, take, length, ltb, All-append, All-take,
}
use s3xc.Io.{Result, ok}
use s3xc.Str.{join}
use s3xc.Str.Split.{Lacks}
use s3xc.Options.{◌>>=◌}
use s3xc.External.Works.{IsHex}
use s3xc.External.Http.{Http, HttpWorks, same_name, IsVisible, Crypto, CryptoWorks}
use s3xc.External.Http.Visible.{IsVisible-IsHex, is_visible, all_visible, all_visible-IsVisible}
use s3xc.External.Url.{Urls}
use s3xc.Server.S3Api.Checks.{chain}
use s3xc.Server.S3Api.Params.{header_str}
use s3xc.Proxy.{sig_v4}
use s3xc.Proxy.Sign.{
  hmac_sha256, signing_key, empty_hash, date_of, payload_hash, credential_scope, auth_header,
  signed_headers, canonical_request, string_to_sign, authorization, sign_headers,
}
use s3xc.Proxy.Agree.Request.{list_of, names, signed_headers-names}

names-IsVisible : (r c : Bool) → All IsVisible (list_of (names r c))
unfolding join all_visible is_visible
names-IsVisible false false = all_visible-IsVisible (list_of (names false false)) refl
names-IsVisible true false = all_visible-IsVisible (list_of (names true false)) refl
names-IsVisible false true = all_visible-IsVisible (list_of (names false true)) refl
names-IsVisible true true = all_visible-IsVisible (list_of (names true true)) refl

empty_hash-IsVisible : All IsVisible empty_hash
unfolding all_visible is_visible
empty_hash-IsVisible = all_visible-IsVisible empty_hash refl

-- A text that may stand in a credential and in a header.
pub record IsPart (s : Text) : Type 0 where
  pub no_slash : Lacks b'/' s
  pub no_comma : Lacks b',' s
  pub visible : All IsVisible s

module _ (crypto : Crypto) (works : CryptoWorks crypto) where
  hmac_sha256_lem : (k d : Bytes) → hmac_sha256 crypto k d ≡ ok (works.hmac k d)
  unfolding hmac_sha256
  hmac_sha256_lem k d = let (mac, made, code) = works.hmac_lem k d in rw made (ap ok code)

  signing_key_lem :
      (secret date region : Text)
      → signing_key crypto secret date region
        ≡ ok (chain crypto works secret date region (codes "s3"))
  unfolding signing_key
  signing_key_lem secret date region = simp hmac_sha256_lem

module _ (http : Http) (hw : HttpWorks http) (crypto : Crypto) (cw : CryptoWorks crypto)
    (urls : Urls) where
  -- The signature of the service `s3` over a request.
  abbrev pub signature :
      (sk region datetime date method : Text) → urls.Url → http.HeaderMap → (hash : Text) → Text
  signature sk region datetime date method url h hash = crypto.hex_encode (
      cw.hmac (chain crypto cw sk date region (codes "s3")) (
        string_to_sign http crypto urls datetime (credential_scope date region)
          (canonical_request http crypto urls method url h hash)))

  authorization_lem :
      (ak sk region datetime date method : Text) (url : urls.Url) (h : http.HeaderMap) (hash : Text)
      → authorization http crypto urls ak sk region datetime date method url h hash
        ≡ ok (
            auth_header ak
              (credential_scope date region)
              (list_of (signed_headers http h))
              (signature sk region datetime date method url h hash))
  unfolding authorization
  authorization_lem ak sk region datetime date method url h hash =
      let (mac, made, code) = cw.hmac_lem (chain crypto cw sk date region (codes "s3")) (
        string_to_sign http crypto urls datetime (credential_scope date region)
          (canonical_request http crypto urls method url h hash)) in
      rw (signing_key_lem crypto cw sk date region, made, code) refl

  payload_hash-IsVisible :
      (h : http.HeaderMap) (body : Option Bytes)
      → All IsVisible (payload_hash http crypto urls h body)
  unfolding payload_hash
  payload_hash-IsVisible h body = given (http.get h (codes "x-amz-content-sha256")) body
    where
      computed :
          (body : Option Bytes)
          → All IsVisible
              (elim body [ some b ↦ crypto.hex_encode (crypto.sha256 b) | none ↦ empty_hash ])
      computed (some b) = IsVisible-IsHex _ (cw.hex_lem (crypto.sha256 b))
      computed none = empty_hash-IsVisible

      read :
          (v : http.HeaderValue) (s : Option Text)
          → http.to_str v ≡ s
          → (body : Option Bytes)
          → All IsVisible (elim s [
            | some val ↦ val
            | none ↦ elim body [ some b ↦ crypto.hex_encode (crypto.sha256 b) | none ↦ empty_hash ]
          ])
      read v (some s) e body = hw.to_str_lem v s e
      read v none e body = computed body

      given :
          (v : Option http.HeaderValue) (body : Option Bytes)
          → All IsVisible (elim (v >>= http.to_str) [
            | some val ↦ val
            | none ↦ elim body [ some b ↦ crypto.hex_encode (crypto.sha256 b) | none ↦ empty_hash ]
          ])
      given (some v) body = read v (http.to_str v) refl body
      given none body = computed body

  -- What is in the headers that were signed: the date, the hash and the signature over them.
  pub record Signs (ak sk region datetime method : Text) (url : urls.Url) (h : http.HeaderMap)
      (r : Result http.HeaderMap) : Type 0 where
    pub hashed : http.HeaderMap
    pub value : http.HeaderValue
    pub hash : Text
    pub returns : r ≡ ok (http.insert hashed (codes "authorization") value)
    pub range_lem :
        http.get (http.insert hashed (codes "authorization") value) (codes "range")
        ≡ http.get h (codes "range")
    pub dated : header_str http hashed (codes "x-amz-date") ≡ some datetime
    pub hash_lem : header_str http hashed (codes "x-amz-content-sha256") ≡ some hash
    pub auth :
        http.to_str value
        ≡ some (
            auth_header ak
              (credential_scope (take 8 datetime) region)
              (list_of (signed_headers http hashed))
              (signature sk region datetime (take 8 datetime) method url hashed hash))

  auth_header-IsVisible :
      (ak date region list sig : Text)
      → IsPart ak
      → All IsVisible date
      → IsPart region
      → All IsVisible list
      → All IsHex sig
      → All IsVisible (auth_header ak (credential_scope date region) list sig)
  unfolding all_visible is_visible
  auth_header-IsVisible ak date region list sig a d r l s =
      let slash = all_visible-IsVisible (codes "/") refl in
      let scope = All-append IsVisible date _ d (
        All-append IsVisible (codes "/") _ slash (
          All-append IsVisible region (codes "/s3/aws4_request") r.visible
            (all_visible-IsVisible (codes "/s3/aws4_request") refl))) in
      let cred =
        All-append IsVisible ak _ a.visible (All-append IsVisible (codes "/") _ slash scope) in
      All-append IsVisible (codes "AWS4-HMAC-SHA256 Credential=") _
        (all_visible-IsVisible (codes "AWS4-HMAC-SHA256 Credential=") refl)
        (All-append IsVisible (ak ++ b'/' ∷ credential_scope date region) _ cred (
          All-append IsVisible (codes ", SignedHeaders=") _
            (all_visible-IsVisible (codes ", SignedHeaders=") refl)
            (All-append IsVisible list _ l (
              All-append IsVisible (codes ", Signature=") sig
                (all_visible-IsVisible (codes ", Signature=") refl) (IsVisible-IsHex sig s)))))

  pub sign_headers-Signs :
      (ak sk region datetime method : Text) (url : urls.Url) (h : http.HeaderMap)
      (body : Option Bytes)
      → IsPart ak
      → IsPart region
      → IsPart datetime
      → 8 ≤ length datetime
      → Signs ak sk region datetime method url h
          (sign_headers http crypto urls (sig_v4 ak sk region) datetime method url h body)
  unfolding sign_headers date_of same_name
  sign_headers-Signs ak sk region datetime method url h body a r d long =
      let date = take 8 datetime in
      let (dv, d_made, d_read) = hw.parse_lem datetime d.visible in
      let dated = http.insert h (codes "x-amz-date") dv in
      let hash = payload_hash http crypto urls dated body in
      let (hv, h_made, h_read) = hw.parse_lem hash (payload_hash-IsVisible dated body) in
      let hashed = http.insert dated (codes "x-amz-content-sha256") hv in
      let sig = signature sk region datetime date method url hashed hash in
      let list = list_of (signed_headers http hashed) in
      let list_visible : All IsVisible list =
        rw (signed_headers-names http hw hashed) (names-IsVisible _ _) in
      let (av, a_made, a_read) =
        hw.parse_lem (auth_header ak (credential_scope date region) list sig) (
          auth_header-IsVisible ak date region list sig a (All-take IsVisible 8 datetime d.visible)
            r list_visible (cw.hex_lem _)) in
      let enough : ltb (length datetime) 8 ≡ false = ground arith in
      record {
        hashed = hashed;
        value = av;
        hash = hash;
        returns =
            rw
              (
                enough,
                d_made,
                h_made,
                authorization_lem ak sk region datetime date method url hashed hash,
                a_made,
              )
              refl;
        range_lem =
            rw
              (
                hw.get_lem hashed (codes "authorization") (codes "range") av,
                hw.get_lem dated (codes "x-amz-content-sha256") (codes "range") hv,
                hw.get_lem h (codes "x-amz-date") (codes "range") dv,
              )
              refl;
        dated =
            rw
              (
                hw.get_lem dated (codes "x-amz-content-sha256") (codes "x-amz-date") hv,
                hw.get_lem h (codes "x-amz-date") (codes "x-amz-date") dv,
              )
              d_read;
        hash_lem =
            rw (hw.get_lem dated (codes "x-amz-content-sha256") (codes "x-amz-content-sha256") hv)
              h_read;
        auth = a_read;
      }
