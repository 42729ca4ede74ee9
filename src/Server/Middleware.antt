-- ===== src/Server/Middleware.antt =====
-- `src/server/mod.rs`: the choice of the credentials, the signature check in front of all requests,
-- and the routes. The matching of paths is the router's, and a parameter.
pub mod Guard
pub mod Whole
use s3xc.Prelude.{ℕ, Bool, Option, none, some, List, Bytes, Text, codes, text_eq, if◌then◌else◌}
use s3xc.Io.{Result, ok, err, Io}
use s3xc.Io
use s3xc.Options.{◌>>=◌, or_else}
use s3xc.Utils.Errors
use s3xc.Utils.Errors.{S3ErrorXml, into_response}
use s3xc.External.{Env, World}
use s3xc.External.Http.{Http, Crypto, Request}
use s3xc.External.Url.{Incoming}
use s3xc.Cache.Coordinator.{CacheCoordinator}
use s3xc.Server.Outcome.{Outcome, done, failed}
use s3xc.Server.S3Api.{SigV4Verifier, ClientCredentials, new_from_str, new_from_env, verify}
use s3xc.Server.Handlers.{Response, Dates, Handler}
use s3xc.Server.Handlers.Fetch.{head_object_handler, get_object_handler}
use s3xc.Server.Handlers.Change.{
  Relay, put_object_handler, delete_object_handler, fallback_proxy_handler,
}

-- The verifier of the server: by its credentials, or else by the environment.
unfoldable pub verifier_of : (var : Text → Option Text) → Option Text → Option SigV4Verifier
unfolding new_from_str new_from_env
verifier_of var credentials = or_else (credentials >>= new_from_str) (new_from_env var)

-- An answer of a handler, or the document of an error.
pub data Reply (http : Http) : Type 0 where
  answered : Response http → Reply http
  refused : Errors.Response → Reply http

module _ (http : Http) (crypto : Crypto) (to_string : S3ErrorXml → Result Text) where
  module _ {S : Type 0} where
    -- The request goes on with its credentials, or is answered at once.
    abbrev pub admit :
        (next : Option ClientCredentials → Io S (Reply http))
        → Result (Outcome ClientCredentials)
        → Io S (Reply http)
    admit next (ok (done creds)) s = next (some creds) s
    admit next (ok (failed e)) s = (ok (refused (into_response to_string e)), s)
    admit next (err e) s = (err e, s)

    -- `next` is what runs behind the check.
    unfoldable pub s3_auth_middleware :
        Option SigV4Verifier
        → Request http
        → (next : Option ClientCredentials → Io S (Reply http)) → Io S (Reply http)
    unfolding verify
    s3_auth_middleware none req next = next none
    s3_auth_middleware (some verifier) req next = admit next (verify http crypto verifier req)

  -- The answer to a handler's result.
  abbrev pub reply : Outcome (Response http) → Reply http
  reply (done response) = answered response
  reply (failed e) = refused (into_response to_string e)

  abbrev pub handled : {S : Type 0} → Handler S (Response http) → Io S (Reply http)
  handled m = Io.◌>>=◌ m λ outcome. Io.pure (reply outcome)

-- What the router knows of a request: the bucket and the key of a path of two parts or more, the
-- target as it was sent, and the body. `closed` tells when an upload task has stopped;
-- `not_allowed` is the router's answer to other methods on a path that it knows.
pub record Routed (http : Http) : Type 0 where
  pub target : Option (Text × Text)
  pub path_and_query : Text
  pub body : List (Result Bytes)
  pub closed : ℕ → Bool
  pub not_allowed : Response http

module _ (http : Http) (crypto : Crypto) (dates : Dates) (relay : Relay http) (env : Env)
    (from_utf8_lossy : Bytes → Text) (to_string : S3ErrorXml → Result Text)
    (proxy_request : (method path_and_query : Text)
      → http.HeaderMap
      → Option Bytes
      → Io env.upstream.Remote (Incoming http))
    (c : CacheCoordinator) where
  -- The handlers of a path with a bucket and a key.
  unfoldable pub object_route :
      Request http → Routed http → (bucket key : Text) → Io (World env) (Reply http)
  unfolding head_object_handler get_object_handler put_object_handler delete_object_handler
      into_response
  object_route req routed bucket key =
      if text_eq req.method (codes "GET")
      then handled http crypto to_string
          (get_object_handler http dates env c req.headers bucket key)
      else if text_eq req.method (codes "HEAD")
      then handled http crypto to_string (head_object_handler http dates env c bucket key)
      else if text_eq req.method (codes "PUT")
      then handled http crypto to_string (
          put_object_handler http dates env c from_utf8_lossy routed.closed req.headers bucket key
            routed.body)
      else if text_eq req.method (codes "DELETE")
      then handled http crypto to_string (delete_object_handler http env c bucket key)
      else Io.pure (answered routed.not_allowed)

  -- The credentials of the request are stored with it, and no handler uses them.
  unfoldable pub route :
      Request http → Routed http → Option ClientCredentials → Io (World env) (Reply http)
  unfolding object_route fallback_proxy_handler
  route req routed creds = elim routed.target [
    | some object ↦ object_route req routed object.0 object.1
    | none ↦
        Io.◌>>=◌
          (fallback_proxy_handler http relay env proxy_request req.method routed.path_and_query
            req.headers routed.body)
          λ response. Io.pure (answered response)
  ]

  -- The server on one request.
  unfoldable pub app :
      Option SigV4Verifier → Request http → Routed http → Io (World env) (Reply http)
  unfolding route s3_auth_middleware
  app verifier req routed = s3_auth_middleware http crypto to_string verifier req (route req routed)
