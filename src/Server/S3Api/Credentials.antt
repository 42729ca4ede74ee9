-- ===== src/Server/S3Api/Credentials.antt =====
-- The credentials that a setting lists are the ones that the verifier has.
use s3xc.Prelude.{◌≡◌, refl, false, some, List, [], ◌∷◌, ◌++◌, map, Text, All}
use s3xc.Maps.{HashMap, insert, extend}
use s3xc.Str.{is_empty, join}
use s3xc.Str.Unicode.{trim_unicode}
use s3xc.Str.Split.{Lacks, splitn2-append}
use s3xc.Str.Parts.{split-join}
use s3xc.Server.S3Api.{add_credentials, new_from_str}

-- `access:secret`
abbrev pub written : Text × Text → Text
written pair = pair.0 ++ b':' ∷ pair.1

-- A pair that can be written: neither key is empty or has white space around it, the access key has no
-- colon, and the text has no semicolon.
pub record IsCredential (pair : Text × Text) : Type 0 where
  pub some_access : is_empty pair.0 ≡ false
  pub some_secret : is_empty pair.1 ≡ false
  pub trimmed_access : trim_unicode pair.0 ≡ pair.0
  pub trimmed_secret : trim_unicode pair.1 ≡ pair.1
  pub no_colon : Lacks b':' pair.0
  pub no_semicolon : Lacks b';' (written pair)

add_credentials-written :
    (m : HashMap) (pairs : List (Text × Text))
    → All IsCredential pairs
    → add_credentials m (map written pairs) ≡ extend m pairs
unfolding add_credentials
add_credentials-written m [] h = refl
add_credentials-written m (pair ∷ pairs) h =
    let c = h.0 in
    rw
      (
        add_credentials,
        splitn2-append b':' pair.0 pair.1 c.no_colon,
        c.trimmed_access,
        c.trimmed_secret,
        c.some_access,
        c.some_secret,
      )
      (add_credentials-written (insert pair.0 pair.1 m) pairs h.1)

Lacks-written :
    (pairs : List (Text × Text)) → All IsCredential pairs → All (Lacks b';') (map written pairs)
Lacks-written [] h = tt
Lacks-written (pair ∷ pairs) h = (h.0.no_semicolon, Lacks-written pairs h.1)

extend-is_empty :
    (m : HashMap) (pairs : List (Text × Text))
    → is_empty m ≡ false
    → is_empty (extend m pairs) ≡ false
extend-is_empty m [] h = h
extend-is_empty m (pair ∷ pairs) h = extend-is_empty (insert pair.0 pair.1 m) pairs refl

-- A list of at least one pair, none of them with an empty key, white space around a key, a colon in the
-- access key or a semicolon, written as `access:secret` with semicolons between, and not blank as a
-- whole: the verifier has exactly these pairs, and of two with one access key the later.
pub new_from_str-written :
    (pair : Text × Text) (pairs : List (Text × Text))
    → All IsCredential (pair ∷ pairs)
    → is_empty (trim_unicode (join (b';' ∷ []) (map written (pair ∷ pairs)))) ≡ false
    → new_from_str (join (b';' ∷ []) (map written (pair ∷ pairs)))
      ≡ some (record { credentials = extend [] (pair ∷ pairs) })
unfolding new_from_str
new_from_str-written pair pairs h some_text =
    rw
      (
        some_text,
        split-join b';' (written pair) (map written pairs) h.0.no_semicolon
            (Lacks-written pairs h.1),
        add_credentials-written [] (pair ∷ pairs) h,
        extend-is_empty (insert pair.0 pair.1 []) pairs refl,
      )
      refl
