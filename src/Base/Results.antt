-- ===== src/Base/Results.antt =====
-- Go's `(T, error)`: a value, or the text of an error.
use Prim.Native.String.{String}
use Prim.Native.String
use mathlib.Core.List.{List, [], ◌∷◌}

pub data Result {ℓ} (A : Type ℓ) : Type ℓ where
  ok : A → Result A
  err : String → Result A

infixl 5 ◌>>=◌
abbrev pub ◌>>=◌ {ℓ κ} : {X : Type ℓ} {Y : Type κ} → Result X → (X → Result Y) → Result Y
err message >>= next = err message
ok x >>= next = next x

-- The parts of a formatted text, joined.
unfoldable pub concat : List String → String
concat [] = ""
concat (s ∷ r) = String.◌++◌ s (concat r)
