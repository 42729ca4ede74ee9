-- ===== src/Proxy.antt =====
-- `src/proxy/mod.rs`: the client of the upstream store. Its settings are here; the URL of a request,
-- its signature and the five operations are in the children.
pub mod Target
pub mod Sign
pub mod Objects
pub mod Generic
pub mod Agree
pub mod Forward
pub mod Reads
use s3xc.Prelude.{Bool, Option, none, some, Text, codes, if◌then◌else◌}
use s3xc.Options.{◌>>=◌, or_else, unwrap_or}

pub data PathScheme : Type 0 where
  path_style virtual_host_style : PathScheme

pub data AuthSigner : Type 0 where
  anonymous : AuthSigner
  sig_v4 : (access_key secret_key region : Text) → AuthSigner

-- The HTTP client is a parameter of what uses it.
pub record ProxyClient : Type 0 where
  pub signer : AuthSigner
  pub path_scheme : PathScheme
  pub upstream_endpoint : Text
  pub upstream_region : Text

-- Both keys, or no signer.
key_pair : Text → Option Text → Option Text → Option AuthSigner
key_pair region access_key secret_key = do
  ak ← access_key
  sk ← secret_key
  some (sig_v4 ak sk region)

-- `std::env::var(..).ok()` is a parameter.
unfoldable pub new :
    (var : Text → Option Text) (endpoint region : Text)
    → (backend_access_key backend_secret_key : Option Text)
    → (backend_path_scheme backend_v4_auth : Bool) → ProxyClient
unfolding key_pair
new var endpoint region backend_access_key backend_secret_key backend_path_scheme backend_v4_auth =
    let from_environment =
      key_pair region (var (codes "AWS_ACCESS_KEY_ID")) (var (codes "AWS_SECRET_ACCESS_KEY")) in
    let configured = key_pair region backend_access_key backend_secret_key in
    record {
      signer =
          if backend_v4_auth
          then unwrap_or (or_else configured from_environment) anonymous
          else anonymous;
      path_scheme = if backend_path_scheme then path_style else virtual_host_style;
      upstream_endpoint = endpoint;
      upstream_region = region;
    }
