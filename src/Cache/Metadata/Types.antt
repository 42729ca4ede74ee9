-- ===== src/Cache/Metadata/Types.antt =====
-- The data of `src/cache/metadata.rs`.
use s3xc.Prelude.{ℕ, Bool, true, false, Option, Text}
use s3xc.Prelude.Int.{ℤ}

-- `last_modified` is a Unix timestamp in seconds.
pub record ObjectMetadata : Type 0 where
  pub content_length : ℕ
  pub content_type : Option Text
  pub etag : Option Text
  pub last_modified : ℤ

pub data ChunkStatus : Type 0 where
  complete downloading : ChunkStatus

-- `status == ChunkStatus::Complete`
abbrev pub is_complete : ChunkStatus → Bool
is_complete complete = true
is_complete downloading = false

-- `size` is a `u32`, `last_accessed_at` a Unix timestamp in seconds.
pub record ChunkMetadata : Type 0 where
  pub size : ℕ
  pub last_accessed_at : ℤ
  pub status : ChunkStatus

-- The tables `OBJECTS_TABLE` and `CHUNKS_TABLE`.
pub data TableName : Type 0 where
  objects_table chunks_table : TableName
