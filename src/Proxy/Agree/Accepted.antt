-- ===== src/Proxy/Agree/Accepted.antt =====
-- A request that the upstream client prepares passes the check of the server.
use s3xc.Prelude.{
  ◌≤◌, ◌≡◌, refl, sym, ap, ◌∙◌, Option, none, some, [], ◌∷◌, Bytes, Text, codes, All, All-take, ◌≢◌,
  take, length,
}
use s3xc.Io.{Result, ok}
use s3xc.Options.{option_map, unwrap_or}
use s3xc.Maps.{get}
use s3xc.Str.{starts_with}
use s3xc.Str.Split.{split, Lacks}
use s3xc.Str.Parts.{split-cons}
use s3xc.External.Http.{Http, HttpWorks, same_name, IsVisible, Crypto, CryptoWorks}
use s3xc.External.Url.{Urls, Outgoing}
use s3xc.Server.Outcome.{done}
use s3xc.Server.S3Api.{SigV4Verifier, sig_params, session_token, string_to_sign, verify}
use s3xc.Server.S3Api.Params.{SigParams, auth_params, sig_params_of, extract_from_headers}
use s3xc.Server.S3Api.Canonical.{retain_unsigned}
use s3xc.Server.S3Api.Checks.{chain, verify-IsSigned}
use s3xc.Proxy.{ProxyClient, sig_v4}
use s3xc.Proxy.Target.{build_url}
use s3xc.Proxy.Sign.{signed_headers, host_val, prepare_request}
use s3xc.Proxy.Agree.Header.{
  IsField, IsHex-IsField, credential, credential-IsField, auth_parts-auth_header,
}
use s3xc.Proxy.Agree.Request.{
  list_of, names-IsField, split-names, signed_headers-names, received,
  build_canonical_request-received,
}
use s3xc.Proxy.Agree.Signing.{IsPart, signature, Signs, sign_headers-Signs}

-- The credential is split into its five parts.
split-credential :
    (ak date region : Text)
    → Lacks b'/' ak
    → Lacks b'/' date
    → Lacks b'/' region
    → split b'/' (credential ak date region)
      ≡ ak ∷ date ∷ region ∷ codes "s3" ∷ codes "aws4_request" ∷ []
unfolding split
split-credential ak date region a d r =
    split-cons b'/' ak _ a
    ∙ ap (λ ps. ak ∷ ps)
        (split-cons b'/' date _ d ∙ ap (λ ps. date ∷ ps) (split-cons b'/' region _ r))

module _ (http : Http) (hw : HttpWorks http) (crypto : Crypto) (cw : CryptoWorks crypto)
    (urls : Urls) where
  -- What the verifier finds in the headers that the client has signed.
  abbrev params_of : (ak region datetime : Text) → http.HeaderMap → (sig : Text) → SigParams
  params_of ak region datetime hashed sig = record {
    access_key = ak;
    date = take 8 datetime;
    datetime = datetime;
    region = region;
    service = codes "s3";
    signed_headers = signed_headers http hashed;
    signature = sig;
  }

  sig_params-Signs :
      (ak sk region datetime method : Text) (url : urls.Url) {h : http.HeaderMap}
      (r : Result http.HeaderMap)
      (s : Signs http hw crypto cw urls ak sk region datetime method url h r)
      → IsPart ak
      → IsPart region
      → IsPart datetime
      → sig_params http
          (received urls method url (http.insert s.hashed (codes "authorization") s.value))
        ≡ some (
            params_of ak region datetime s.hashed (
              signature http hw crypto cw urls sk region datetime
                (take 8 datetime)
                method
                url
                s.hashed
                s.hash))
  unfolding sig_params extract_from_headers auth_params sig_params_of starts_with same_name
  sig_params-Signs ak sk region datetime method url r s a g d =
      let date = take 8 datetime in
      let sig =
        signature http hw crypto cw urls sk region datetime date method url s.hashed s.hash in
      let list = list_of (signed_headers http s.hashed) in
      let c =
        credential-IsField ak date region a.no_comma
          (All-take (λ x. x ≢ b',') 8 datetime d.no_comma) g.no_comma in
      let l : IsField list = rw (signed_headers-names http hw s.hashed) (names-IsField _ _) in
      let e = IsHex-IsField sig (cw.hmac-ne-nil _ _) (cw.hex_lem _) in
      let again : split b';' list ≡ signed_headers http s.hashed =
        rw (signed_headers-names http hw s.hashed) (split-names _ _) in
      rw
        (
          hw.get_lem s.hashed (codes "authorization") (codes "authorization") s.value,
          s.auth,
          auth_parts-auth_header (credential ak date region) list sig c l e,
          c.ends.some_text,
          l.ends.some_text,
          e.ends.some_text,
          hw.get_lem s.hashed (codes "authorization") (codes "x-amz-date") s.value,
          s.dated,
          split-credential ak date region a.no_slash
              (All-take (λ x. x ≢ b'/') 8 datetime d.no_slash) g.no_slash,
          again,
        )
        refl

  -- A request that was signed is accepted where its key is registered.
  pub Signs-verify :
      (v : SigV4Verifier) (ak sk region datetime method : Text) (url : urls.Url)
      {h : http.HeaderMap} (r : Result http.HeaderMap)
      (s : Signs http hw crypto cw urls ak sk region datetime method url h r)
      → IsPart ak
      → IsPart region
      → IsPart datetime
      → get ak v.credentials ≡ some sk
      → retain_unsigned (unwrap_or (option_map http.form_parse (urls.query url)) [])
        ≡ unwrap_or (option_map http.form_parse (urls.query url)) []
      → let req = received urls method url (http.insert s.hashed (codes "authorization") s.value) in
        verify http crypto v req
        ≡ ok (
            done
              (record { access_key = ak; secret_key = sk; session_token = session_token http req }))
  Signs-verify v ak sk region datetime method url r s a g d there unsigned =
      let sig =
        signature http hw crypto cw urls sk region datetime (take 8 datetime) method url s.hashed
          s.hash in
      let p = params_of ak region datetime s.hashed sig in
      (verify-IsSigned http crypto cw v _ _).1 (record {
        params = p;
        found = sig_params-Signs ak sk region datetime method url r s a g d;
        access = refl;
        registered = there;
        signed =
            ap
              (λ text. crypto.hex_encode (
                cw.hmac (chain crypto cw sk (take 8 datetime) region (codes "s3"))
                  (string_to_sign p (crypto.hex_encode (crypto.sha256 text)))))
              (sym (
                build_canonical_request-received http hw crypto urls method url s.hashed s.value
                  s.hash p refl s.hash_lem unsigned));
        token = refl;
      })

  -- A client whose access key, region and clock have neither a slash nor a comma nor a byte that no
  -- header carries, and whose clock gives a date of at least eight bytes, prepares every request to
  -- a URL that it can build, whose query names no signature; and a server that has its keys accepts
  -- that request, as one of the client's access key.
  pub prepare_request-verify :
      (v : SigV4Verifier) (c : ProxyClient) (ak sk region datetime method : Text)
      (bucket : Option Text) (key_and_query : Text) (headers : http.HeaderMap) (body : Option Bytes)
      (url : urls.Url)
      → c.signer ≡ sig_v4 ak sk region
      → get ak v.credentials ≡ some sk
      → IsPart ak
      → IsPart region
      → IsPart datetime
      → 8 ≤ length datetime
      → build_url urls c bucket key_and_query ≡ ok url
      → All IsVisible (host_val http crypto urls url)
      → retain_unsigned (unwrap_or (option_map http.form_parse (urls.query url)) [])
        ≡ unwrap_or (option_map http.form_parse (urls.query url)) []
      → (out : Outgoing http urls) × (prepare_request http crypto urls c datetime method bucket
            key_and_query headers body
          ≡ ok out)
        × (verify http crypto v (received urls out.method out.url out.headers)
            ≡ ok (
                done (record {
                  access_key = ak;
                  secret_key = sk;
                  session_token = session_token http (received urls out.method out.url out.headers);
                })))
  unfolding prepare_request
  prepare_request-verify v c ak sk region datetime method bucket kq headers body url signer there a
        g d long built visible unsigned =
      let (hv, made, read) = hw.parse_lem (host_val http crypto urls url) visible in
      let s =
        sign_headers-Signs http hw crypto cw urls ak sk region datetime method url
          (http.insert headers (codes "host") hv) body a g d long in
      (
        record {
          method = method;
          url = url;
          headers = http.insert s.hashed (codes "authorization") s.value;
          body = body;
          stream = none;
        },
        rw (built, made, signer, s.returns) refl,
        Signs-verify v ak sk region datetime method url _ s a g d there unsigned,
      )
