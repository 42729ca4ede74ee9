-- ===== src/Proxy/Agree/Header.antt =====
-- The `Authorization` header that the client writes is read back by the verifier.
use s3xc.Prelude.{
  ◌≡◌, ◌≢◌, refl, ap, ◌∙◌, [], ◌∷◌, ◌++◌, Text, codes, All, All-append, arith, text_eq,
}
use s3xc.Str.{is_space, trim_end, trim}
use s3xc.Str.Split.{split, splitn2, Lacks, split-Lacks}
use s3xc.Str.Parts.{split-cons, Ends, Ends-append, trim-cons, trim_blank}
use s3xc.External.Works.{IsHex}
use s3xc.Proxy.Sign.{credential_scope}
use s3xc.Server.S3Api.Params.{AuthParts, auth_part, auth_parts}

-- A text that may stand between the commas of the header.
pub record IsField (s : Text) : Type 0 where
  pub ends : Ends s
  pub no_comma : Lacks b',' s

trim_end-IsHex : (s : Text) → All IsHex s → trim_end s ≡ s
unfolding trim_end is_space
trim_end-IsHex [] h = refl
trim_end-IsHex (c ∷ s) h = ground (arith, trim_end-IsHex s h.1)

Lacks-IsHex : (s : Text) → All IsHex s → Lacks b',' s
Lacks-IsHex [] h = tt
Lacks-IsHex (c ∷ s) h = (ground arith, Lacks-IsHex s h.1)

pub IsHex-IsField : (s : Text) → s ≢ [] → All IsHex s → IsField s
IsHex-IsField [] some_text h = absurd (some_text refl)
IsHex-IsField (c ∷ s) some_text h = record {
  ends = record { some_text = refl; ends = trim_end-IsHex (c ∷ s) h };
  no_comma = Lacks-IsHex (c ∷ s) h;
}

abbrev pub credential : (ak date region : Text) → Text
credential ak date region = ak ++ b'/' ∷ credential_scope date region

slash : Lacks b',' (codes "/")
slash = ground arith

-- A credential ends in the name of its terminator.
pub credential-IsField :
    (ak date region : Text)
    → Lacks b',' ak
    → Lacks b',' date
    → Lacks b',' region
    → IsField (credential ak date region)
unfolding trim_end is_space
credential-IsField ak date region a d r = record {
  ends = Ends-append ak _ (
      Ends-append (b'/' ∷ date) _ (
        Ends-append (b'/' ∷ region) (codes "/s3/aws4_request")
          (record { some_text = refl; ends = refl })));
  no_comma =
      All-append (λ x. x ≢ b',') ak _ a
        (
          slash.0,
          All-append (λ x. x ≢ b',') date _ d
              (
                slash.0,
                All-append (λ x. x ≢ b',') region (codes "/s3/aws4_request") r (ground arith),
              ),
        );
}

abbrev fields : (cred list sig : Text) → Text
fields cred list sig =
    codes "Credential="
    ++ (cred ++ (codes ", SignedHeaders=" ++ (list ++ (codes ", Signature=" ++ sig))))

module _ (cred list sig : Text) (c : IsField cred) (l : IsField list) (s : IsField sig) where
  -- The fields behind the prefix, and the three parts between the commas.
  trim-fields : trim (fields cred list sig) ≡ fields cred list sig
  unfolding is_space
  trim-fields = trim-cons b'C' _ refl (
      Ends-append (codes "Credential=") _ (
        Ends-append cred _ (
          Ends-append (codes ", SignedHeaders=") _
            (Ends-append list _ (Ends-append (codes ", Signature=") sig s.ends)))))

  split-fields :
      split b',' (fields cred list sig)
      ≡ (codes "Credential=" ++ cred)
        ∷ (codes " SignedHeaders=" ++ list)
        ∷ (codes " Signature=" ++ sig)
        ∷ []
  split-fields =
      split-cons b',' (codes "Credential=" ++ cred) _
        (All-append (λ x. x ≢ b',') (codes "Credential=") cred (ground arith) c.no_comma)
      ∙ ap (λ ps. (codes "Credential=" ++ cred) ∷ ps)
          (split-cons b',' (codes " SignedHeaders=" ++ list) _
              (All-append (λ x. x ≢ b',') (codes " SignedHeaders=") list (ground arith) l.no_comma)
            ∙ ap (λ ps. (codes " SignedHeaders=" ++ list) ∷ ps)
                (split-Lacks b',' (codes " Signature=" ++ sig)
                  (All-append (λ x. x ≢ b',') (codes " Signature=") sig (ground arith) s.no_comma)))

  -- The loop over the parts finds the three fields.
  pub auth_parts-auth_header :
      (found : AuthParts)
      → auth_parts found (split b',' (trim (fields cred list sig)))
        ≡ record { credential = cred; signed_headers_str = list; signature = sig }
  unfolding auth_parts auth_part splitn2 is_space text_eq
  auth_parts-auth_header found =
      rw
        (
          trim-fields,
          split-fields,
          trim-cons b'C' (codes "redential=" ++ cred) refl
              (Ends-append (codes "Credential=") cred c.ends),
          trim_blank (codes "SignedHeaders=" ++ list),
          trim-cons b'S' (codes "ignedHeaders=" ++ list) refl
              (Ends-append (codes "SignedHeaders=") list l.ends),
          trim_blank (codes "Signature=" ++ sig),
          trim-cons b'S' (codes "ignature=" ++ sig) refl
              (Ends-append (codes "Signature=") sig s.ends),
        )
        refl
