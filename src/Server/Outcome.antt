-- ===== src/Server/Outcome.antt =====
-- `Result<_, S3Error>`, what the handlers and the signature check return.
use s3xc.Utils.Errors.{S3Error}

pub data Outcome {ℓ} (A : Type ℓ) : Type ℓ where
  done : A → Outcome A
  failed : S3Error → Outcome A
