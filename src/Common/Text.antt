-- ===== src/Common/Text.antt =====
-- C strings: the bytes before the terminating NUL, and `strcmp(a, b) == 0`.
use Prim.Native.Nat.{ℕ}
use Prim.Native.Char.{code}
use Prim.Native.String.{String}
use mathlib.Core.Path.{◌≡◌, refl, ap}
use mathlib.Core.Logic.{◌≢◌}
use native.Mathlib.Omega.{arith}
use mathlib.Core.Bool.{Bool, true, false, ◌&&◌}
use mathlib.Core.List.{List, [], ◌∷◌}
use textreaderrpi.Common.Tests.{◌==◌, if◌then◌else◌}

-- The bytes of an ASCII literal.
abbrev pub codes : String → List ℕ
codes String.[] = []
codes (String.◌∷◌ c s) = code c ∷ codes s

abbrev pub same_text : List ℕ → List ℕ → Bool
same_text [] [] = true
same_text [] (y ∷ ys) = false
same_text (x ∷ xs) [] = false
same_text (x ∷ xs) (y ∷ ys) = (x == y) && same_text xs ys

pub same_text→≡ : (xs ys : List ℕ) → same_text xs ys ≡ true → xs ≡ ys
same_text→≡ [] [] h = refl
same_text→≡ [] (y ∷ ys) h = cc
same_text→≡ (x ∷ xs) [] h = cc
same_text→≡ (x ∷ xs) (y ∷ ys) h = ground (arith, same_text→≡ xs ys)

-- The bytes before the first NUL.
abbrev pub c_string : List ℕ → List ℕ
c_string [] = []
c_string (c ∷ s) = if c == 0 then [] else c ∷ c_string s

-- A C string: no byte is a NUL.
abbrev pub IsCString : List ℕ → Type 0
IsCString [] = Unit
IsCString (c ∷ s) = (c ≢ 0) × IsCString s

pub c_string_lem : (s : List ℕ) → IsCString s → c_string s ≡ s
c_string_lem [] t = refl
c_string_lem (c ∷ s) t = rw (different) (ap (λ l. c ∷ l) (c_string_lem s t.1))
  where
    different : (c == 0) ≡ false
    different = ground arith
