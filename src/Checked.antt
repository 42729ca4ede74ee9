-- ===== src/Checked.antt =====
-- `?` and `let` chains of code that changes no state and may fail.
use s3xc.Io.{Result, bind_result}

infixl 5 ◌>>=◌
abbrev pub ◌>>=◌ {ℓ κ} : {A : Type ℓ} {B : Type κ} → Result A → (A → Result B) → Result B
m >>= f = bind_result m f
