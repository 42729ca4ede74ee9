-- ===== src/Proxy/Target.antt =====
-- `build_url` of `src/proxy/mod.rs`: where a request goes.
use s3xc.Prelude.{Option, none, some, List, ◌∷◌, ◌++◌, ◌+◌, Text, take, drop}
use s3xc.Io.{Result, ok}
use s3xc.Checked.{◌>>=◌}
use s3xc.Options.{unwrap_or}
use s3xc.Str.{find, trim_start_matches}
use s3xc.External.Url.{Urls}
use s3xc.Proxy.{ProxyClient, PathScheme, path_style, virtual_host_style}

-- A text cut at its first question mark.
unfoldable pub split_query : Text → Text × Option Text
split_query s = elim (find b'?' s) [
  | some idx ↦ (take idx s, some (drop (idx + 1) s))
  | none ↦ (s, none)
]

module _ (urls : Urls) where
  -- The host and the path, by the addressing scheme.
  unfoldable pub place : Option Text → PathScheme → Text → urls.Url → Result urls.Url
  place (some b) virtual_host_style path_part endpoint = do
    let host = unwrap_or (urls.host_str endpoint) List.[]
    hosted ← urls.set_host (b ++ b'.' ∷ host) endpoint
    ok (urls.set_path (b'/' ∷ trim_start_matches b'/' path_part) hosted)
  place (some b) path_style path_part endpoint =
      ok (urls.set_path (b'/' ∷ b ++ b'/' ∷ trim_start_matches b'/' path_part) endpoint)
  place none scheme path_part endpoint =
      ok (urls.set_path (b'/' ∷ trim_start_matches b'/' path_part) endpoint)

  unfoldable pub build_url : ProxyClient → Option Text → Text → Result urls.Url
  unfolding split_query place
  build_url c bucket key_and_query = do
    endpoint ← urls.parse c.upstream_endpoint
    placed ← place bucket c.path_scheme (split_query key_and_query).0 endpoint
    ok (urls.set_query (split_query key_and_query).1 placed)
