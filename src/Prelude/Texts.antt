-- ===== src/Prelude/Texts.antt =====
-- Literals as lists of characters.
use Prim.Native.Char.{code}
use Prim.Native.String.{String}
use ea_x.Prelude.{ℕ, List, [], ◌∷◌}

unfoldable pub codes : String → List ℕ
codes String.[] = []
codes (String.◌∷◌ c s) = code c ∷ codes s
