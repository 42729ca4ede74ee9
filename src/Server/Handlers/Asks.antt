-- ===== src/Server/Handlers/Asks.antt =====
-- What a `Range` header asks of `get_object_handler` in `src/server/handlers.rs`.
use s3xc.Prelude.{ℕ, ◌≡◌, Option-cases, inl, inr, Option, none, some, Text}
use s3xc.Options.{◌>>=◌}
use s3xc.Server.Range.{parse_range}
use s3xc.Server.Handlers.Fetch.{span_of}

-- What a `Range` header asks of an object of a size: the whole object, with status 200, if there is
-- no header or the server cannot read a range in it, and else that range, with status 206.
pub data Asks (size : ℕ) : Option Text → (start end status : ℕ) → Type 0 where
  no_header : Asks size none 0 size 200
  unread : (t : Text) → parse_range t size ≡ none → Asks size (some t) 0 size 200
  part :
      (t : Text) (start end : ℕ)
      → parse_range t size ≡ some (start, end)
      → Asks size (some t) start end 206

pub Asks-span_of :
    (r : Option Text) (size : ℕ)
    → let range = span_of (r >>= λ t. parse_range t size) size in
      Asks size r range.0 range.1 range.2
Asks-span_of none size = no_header
Asks-span_of (some t) size = elim (Option-cases (parse_range t size)) [
  | inl bad ↦ rw bad (unread t bad)
  | inr (range, good) ↦ rw good (part t range.0 range.1 good)
]
