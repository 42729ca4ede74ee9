-- ===== src/Options.antt =====
-- The methods of Rust's `Option` that the source chains, and `?` on an option.
use s3xc.Prelude.{Option, none, some}

module _ {ℓ κ} {A : Type ℓ} {B : Type κ} where
  infixl 5 ◌>>=◌
  -- `a?` and what follows; `a.and_then(f)`
  abbrev pub ◌>>=◌ : Option A → (A → Option B) → Option B
  none >>= f = none
  some a >>= f = f a

  -- `a.map(f)`
  abbrev pub option_map : (A → B) → Option A → Option B
  option_map f none = none
  option_map f (some a) = some (f a)

module _ {ℓ} {A : Type ℓ} where
  -- `a.or_else(b)`; what `b` would do changes nothing.
  abbrev pub or_else : Option A → Option A → Option A
  or_else (some a) b = some a
  or_else none b = b

  -- `a.unwrap_or(b)`
  abbrev pub unwrap_or : Option A → A → A
  unwrap_or (some a) b = a
  unwrap_or none b = b
