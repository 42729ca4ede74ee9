-- ===== src/Maps.antt =====
-- `HashMap<String, String>`: the newest pair of a key hides the older ones.
use s3xc.Prelude.{Option, none, some, List, [], ◌∷◌, Text, text_eq, if◌then◌else◌}

abbrev pub HashMap : Type 0
HashMap = List (Text × Text)

abbrev pub insert : Text → Text → HashMap → HashMap
insert k v m = (k, v) ∷ m

-- `m.get(k)`. On a list of pairs that is no map it is the first pair's value.
unfoldable pub get : Text → HashMap → Option Text
get k [] = none
get k (pair ∷ m) = let rest = get k m in if text_eq k pair.0 then some pair.1 else rest

-- The pairs put into `m`, in their order.
abbrev pub extend : HashMap → List (Text × Text) → HashMap
extend m [] = m
extend m (pair ∷ pairs) = extend (insert pair.0 pair.1 m) pairs
