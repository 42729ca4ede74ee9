-- ===== src/Config.antt =====
-- `Config::from_cli` of `src/config.rs`. Reading the file and TOML are parameters.
use s3xc.Prelude.{ℕ, Bool, Option, none, some, Text, codes, text_eq}
use s3xc.Io.{Error, error, Result, ok, err, bind_result}
use s3xc.Options.{or_else, unwrap_or}
use s3xc.External.Path.{FilePath}
use s3xc.Str.{to_lowercase}

-- The arguments of the command line, with their defaults.
pub record Cli : Type 0 where
  pub config : Option FilePath
  pub bind_addr : Text
  pub upstream_endpoint : Option Text
  pub backend_endpoint : Option Text
  pub upstream_region : Text
  pub backend_region : Option Text
  pub cache_dir : FilePath
  pub chunk_size : ℕ
  pub max_cache_size : ℕ
  pub credentials : Option Text
  pub backend_access_key : Option Text
  pub backend_secret_key : Option Text
  pub backend_path_scheme : Text
  pub backend_v4_auth : Text

pub record Config : Type 0 where
  pub bind_addr : Text
  pub upstream_endpoint : Text
  pub upstream_region : Text
  pub cache_dir : FilePath
  pub chunk_size : ℕ
  pub max_cache_size : ℕ
  pub credentials : Option Text
  pub backend_access_key : Option Text
  pub backend_secret_key : Option Text
  pub backend_path_scheme : Bool
  pub backend_v4_auth : Bool

-- `a.ok_or_else(..)`
abbrev ok_or : Option Text → Error → Result Text
ok_or (some a) e = ok a
ok_or none e = err e

-- With a configuration file all other arguments are ignored.
unfoldable pub from_cli :
    (read_to_string : FilePath → Result Text) (from_toml : Text → Result Config)
    → Cli
    → Result Config
from_cli read_to_string from_toml cli = elim cli.config [
  | some config_path ↦ bind_result (read_to_string config_path) from_toml
  | none ↦
      bind_result
        (ok_or (or_else cli.backend_endpoint cli.upstream_endpoint) (
          error (
            codes
              "Backend/Upstream endpoint must be specified via CLI, environment variable, or config file.")))
        λ upstream_endpoint. ok (record {
          bind_addr = cli.bind_addr;
          upstream_endpoint = upstream_endpoint;
          upstream_region = unwrap_or cli.backend_region cli.upstream_region;
          cache_dir = cli.cache_dir;
          chunk_size = cli.chunk_size;
          max_cache_size = cli.max_cache_size;
          credentials = cli.credentials;
          backend_access_key = cli.backend_access_key;
          backend_secret_key = cli.backend_secret_key;
          backend_path_scheme = text_eq (to_lowercase cli.backend_path_scheme) (codes "true");
          backend_v4_auth = text_eq (to_lowercase cli.backend_v4_auth) (codes "true");
        })
]
