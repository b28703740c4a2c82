-- ===== src/Memory/Replace.antt =====
-- The array that a single store leaves.
use textreaderrpi.Common.{
  ℕ, zero, suc, ◌<◌, ◌≡◌, ◌≢◌, refl, ap, some, List, [], ◌∷◌, arith, length, get_or, replicate,
}
use textreaderrpi.Memory.{store, under}

abbrev pub replaced : List ℕ → ℕ → ℕ → List ℕ
replaced [] i v = []
replaced (x ∷ xs) zero v = v ∷ xs
replaced (x ∷ xs) (suc i) v = x ∷ replaced xs i v

pub store-replaced : (xs : List ℕ) (i v : ℕ) → i < length xs → store xs i v ≡ some (replaced xs i v)
store-replaced [] i v h = absurd (omega arith)
store-replaced (x ∷ xs) zero v h = refl
store-replaced (x ∷ xs) (suc i) v h = ap (under x) (store-replaced xs i v (omega arith))

pub length-replaced : (xs : List ℕ) (i v : ℕ) → length (replaced xs i v) ≡ length xs
length-replaced [] i v = refl
length-replaced (x ∷ xs) zero v = refl
length-replaced (x ∷ xs) (suc i) v = ap suc (length-replaced xs i v)

pub get_or-replaced : (xs : List ℕ) (i v : ℕ) → i < length xs → get_or (replaced xs i v) i 0 ≡ v
get_or-replaced [] i v h = absurd (omega arith)
get_or-replaced (x ∷ xs) zero v h = refl
get_or-replaced (x ∷ xs) (suc i) v h = get_or-replaced xs i v (omega arith)

pub get_or-replaced_other :
    (xs : List ℕ) (i j v : ℕ) → i ≢ j → get_or (replaced xs i v) j 0 ≡ get_or xs j 0
get_or-replaced_other [] i j v h = refl
get_or-replaced_other (x ∷ xs) zero zero v h = absurd (h refl)
get_or-replaced_other (x ∷ xs) zero (suc j) v h = refl
get_or-replaced_other (x ∷ xs) (suc i) zero v h = refl
get_or-replaced_other (x ∷ xs) (suc i) (suc j) v h =
    get_or-replaced_other xs i j v (λ e. h (ap suc e))

-- Every element is below `bound`.
abbrev pub AllBelow : ℕ → List ℕ → Type 0
AllBelow bound xs = (i : ℕ) → get_or xs i 0 < bound

pub replaced-AllBelow :
    (bound : ℕ) (xs : List ℕ) (i v : ℕ)
    → v < bound
    → AllBelow bound xs
    → AllBelow bound (replaced xs i v)
replaced-AllBelow bound [] i v lt h j = h j
replaced-AllBelow bound (x ∷ xs) zero v lt h zero = lt
replaced-AllBelow bound (x ∷ xs) zero v lt h (suc j) = h (suc j)
replaced-AllBelow bound (x ∷ xs) (suc i) v lt h zero = h zero
replaced-AllBelow bound (x ∷ xs) (suc i) v lt h (suc j) =
    replaced-AllBelow bound xs i v lt (λ k. h (suc k)) j

pub replicate-AllBelow : (bound n v : ℕ) → v < bound → AllBelow bound (replicate n v)
replicate-AllBelow bound zero v lt i = omega arith
replicate-AllBelow bound (suc n) v lt zero = lt
replicate-AllBelow bound (suc n) v lt (suc i) = replicate-AllBelow bound n v lt i
