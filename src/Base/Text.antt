-- ===== src/Base/Text.antt =====
-- ASCII texts and C strings as lists of bytes.
use Prim.Native.Nat.{ℕ}
use Prim.Native.Char.{code}
use Prim.Native.String.{String}
use mathlib.Core.List.{List, [], ◌∷◌, ◌++◌}
use mathlib.Core.Path.{◌≡◌, refl, ap}
use server_simple.Base.Tests.{◌==◌, if◌then◌else◌}

-- `String` has its own `[]` and `∷`.
abbrev pub codes : String → List ℕ
codes String.[] = []
codes (String.◌∷◌ c s) = code c ∷ codes s

-- The bytes before the first 0.
abbrev pub c_string : List ℕ → List ℕ
c_string [] = []
c_string (b ∷ bytes) = if b == 0 then [] else b ∷ c_string bytes

pub c_string-append : (xs ys : List ℕ) → c_string (xs ++ 0 ∷ ys) ≡ c_string xs
c_string-append [] ys = refl
c_string-append (x ∷ xs) ys = ap (λ r. if x == 0 then [] else x ∷ r) (c_string-append xs ys)
