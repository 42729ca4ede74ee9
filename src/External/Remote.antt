-- ===== src/External/Remote.antt =====
-- What the cache relies on of the upstream store: its documented answers where it reports no error.
use s3xc.Prelude.{ℕ, ◌≤◌, ◌<◌, ◌≡◌, Option, some, List, Bytes, Text, concat, map, slice, length}
use s3xc.Io.{ok}
use s3xc.Cache.Metadata.Types.{ObjectMetadata}
use s3xc.External.{Upstream}
use s3xc.Cache.Read.{range_header}

-- An object upstream, and what HEAD says of it.
pub record Stored : Type 0 where
  pub bytes : Bytes
  pub meta : ObjectMetadata

pub record UpstreamReads (u : Upstream) : Type 0 where
  pub stored : u.Remote → Text → Text → Option Stored
  -- HEAD gives the metadata, with the length of the object.
  pub head_lem :
      (r : u.Remote) (bucket key : Text) (s : Stored)
      → stored r bucket key ≡ some s
      → (u.head_object bucket key r).0 ≡ ok s.meta
  pub length_lem :
      (r : u.Remote) (bucket key : Text) (s : Stored)
      → stored r bucket key ≡ some s
      → s.meta.content_length ≡ length s.bytes
  pub head_keeps :
      (r : u.Remote) (bucket key : Text) → stored (u.head_object bucket key r).1 ≡ stored r
  -- GET with a range inside the object gives its bytes, in pieces.
  pub range_lem :
      (r : u.Remote) (bucket key : Text) (s : Stored) (a b : ℕ)
      → stored r bucket key ≡ some s
      → a < b
      → b ≤ length s.bytes
      → (pieces : List Bytes) × ((u.get_object_range_stream bucket key (range_header a b) r).0
          ≡ ok (map ok pieces))
        × (concat pieces ≡ slice a b s.bytes)
  pub range_keeps :
      (r : u.Remote) (bucket key header : Text)
      → stored (u.get_object_range_stream bucket key header r).1 ≡ stored r
