-- ===== src/Server/Handlers.antt =====
-- `src/server/handlers.rs`: what the handlers share. They run over the world of the cache and answer
-- with a response or an `S3Error`; `fetch` and `store` are the five handlers.
pub mod Fetch
pub mod Change
pub mod Headers
pub mod Status
pub mod Asks
pub mod Serves
pub mod Copies
pub mod Deletes
use s3xc.Prelude.{
  ℕ, zero, suc, Bool, true, false, ◌||◌, Option, none, some, List, [], ◌∷◌, Bytes, Text, codes,
  ◌==◌, if◌then◌else◌,
}
use s3xc.Prelude.Int.{ℤ}
use s3xc.Io.{Error, error, panic, diverges, Result, ok, err, unwrap, Io, catch, bind_result}
use s3xc.Io
use s3xc.Str.{starts_with}
use s3xc.Utils.Errors.{S3Error, no_such_key, internal}
use s3xc.External.{Env, World, on_db}
use s3xc.External.Http.{Http}
use s3xc.Cache.Keys.{object_key}
use s3xc.Cache.Metadata
use s3xc.Cache.Metadata.Types.{ObjectMetadata, ChunkMetadata, is_complete}
use s3xc.Cache.Read.{ReadFuture}
use s3xc.Server.Outcome.{Outcome, done, failed}

-- `stream` is the body of futures that the client takes one after the other, `relayed` what another
-- server sends.
pub data Body : Type 0 where
  no_body : Body
  bytes : Bytes → Body
  stream : List ReadFuture → Body
  relayed : List (Result Bytes) → Body

pub record Response (http : Http) : Type 0 where
  pub status : ℕ
  pub headers : http.HeaderMap
  pub body : Body

-- `chrono`: the time at a number of seconds, if there is one, and its text in the format of HTTP.
pub record Dates : Type 1 where
  pub DateTime : Type 0
  pub default : DateTime
  pub from_timestamp : ℤ → Option DateTime
  pub format : DateTime → Text

unfoldable pub format_http_date : Dates → ℤ → Text
format_http_date dates secs =
    dates.format (s3xc.Options.unwrap_or (dates.from_timestamp secs) dates.default)

abbrev pub Handler : (S : Type 0) → Type 0 → Type 0
Handler S A = Io S (Outcome A)

module _ {S A B : Type 0} where
  abbrev pub proceed : (A → Handler S B) → Result (Outcome A) → Handler S B
  proceed f (ok (done a)) s = f a s
  proceed f (ok (failed e)) s = (ok (failed e), s)
  proceed f (err e) s = (err e, s)

  infixl 10 ◌>>=◌
  -- `e?` and what follows, in a handler
  abbrev pub ◌>>=◌ : Handler S A → (A → Handler S B) → Handler S B
  ◌>>=◌ m f s = proceed f (m s).0 (m s).1

abbrev pub convert : {A : Type 0} → (Error → S3Error) → Result A → Result (Outcome A)
convert f (ok a) = ok (done a)
convert f (err (error t)) = ok (failed (f (error t)))
convert f (err panic) = err panic
convert f (err diverges) = err diverges

module _ {S A : Type 0} where
  -- `m.await.map_err(f)`
  abbrev pub map_err : (Error → S3Error) → Io S A → Handler S A
  map_err f m s = (convert f (m s).0, (m s).1)

  abbrev pub respond : A → Handler S A
  respond a s = (ok (done a), s)

  -- Code of a handler that can only panic.
  abbrev pub plain : Io S A → Handler S A
  plain m = Io.◌>>=◌ m λ a. respond a

-- `e.to_string().contains(p)`
unfoldable pub contains : Text → Text → Bool
contains [] p = starts_with [] p
contains (c ∷ s) p = let rest = contains s p in starts_with (c ∷ s) p || rest

unfoldable pub not_found_or_internal : Error → S3Error
unfolding contains
not_found_or_internal (error t) =
    if contains t (codes "NoSuchKey") then no_such_key else internal (error t)
not_found_or_internal panic = internal panic
not_found_or_internal diverges = internal diverges

module _ (http : Http) where
  -- `headers.insert(name, value.parse().unwrap())`
  unfoldable pub insert_text : Text → Text → http.HeaderMap → Result http.HeaderMap
  insert_text name value headers =
      bind_result (unwrap (http.parse value)) λ v. ok (http.insert headers name v)

  -- `if let Ok(h_val) = value.parse() { headers.insert(name, h_val); }`
  abbrev pub insert_parsed : Text → Result http.HeaderValue → http.HeaderMap → Result http.HeaderMap
  insert_parsed name (ok v) headers = ok (http.insert headers name v)
  insert_parsed name (err (error t)) headers = ok headers
  insert_parsed name (err panic) headers = err panic
  insert_parsed name (err diverges) headers = err diverges

  -- The same of a value that may be missing.
  unfoldable pub insert_valid : Text → Option Text → http.HeaderMap → Result http.HeaderMap
  insert_valid name none headers = ok headers
  insert_valid name (some value) headers = insert_parsed name (http.parse value) headers

-- The status of chunk 0 of an object of positive length.
abbrev pub is_hot_chunk : Result (Option ChunkMetadata) → Bool
is_hot_chunk (ok (some chunk_meta)) = is_complete chunk_meta.status
is_hot_chunk (ok none) = false
is_hot_chunk (err e) = false

module _ (env : Env) where
  hot_object : Text → Result (Option ObjectMetadata) → Io (World env) Bool
  hot_object db_key (ok (some local_meta)) =
      if local_meta.content_length == 0
      then Io.pure true
      else Io.◌>>=◌ (catch (on_db (Metadata.get_chunk env db_key 0)))
          λ found. Io.pure (is_hot_chunk found)
  hot_object db_key (ok none) = Io.pure false
  hot_object db_key (err e) = Io.pure false

  -- The value of `X-S3XC-CACHED`.
  unfoldable pub cache_status : (bucket key : Text) → Io (World env) Text
  unfolding hot_object
  cache_status bucket key =
      Io.◌>>=◌ (catch (on_db (Metadata.get_object env (object_key bucket key)))) λ found.
        Io.◌>>=◌ (hot_object (object_key bucket key) found)
          λ is_hot. Io.pure (if is_hot then codes "hot" else codes "cold")
