-- ===== src/Memory.antt =====
-- Arrays in memory: checked reads and writes, and loops that write consecutive cells.
-- `none` is an access outside the array.
pub mod Laws
pub mod Replace
use textreaderrpi.Common.{ℕ, zero, suc, ◌+◌, Option, none, some, List, [], ◌∷◌}

infixl 5 ◌>>=◌
abbrev pub ◌>>=◌ : {A B : Type 0} → Option A → (A → Option B) → Option B
none >>= f = none
some a >>= f = f a

-- `a[i]`
abbrev pub load : List ℕ → ℕ → Option ℕ
load [] i = none
load (x ∷ xs) zero = some x
load (x ∷ xs) (suc i) = load xs i

abbrev pub under {ℓ} : {A : Type ℓ} → A → Option (List A) → Option (List A)
under x none = none
under x (some xs) = some (x ∷ xs)

-- `a[i] = v`
abbrev pub store : List ℕ → ℕ → ℕ → Option (List ℕ)
store [] i v = none
store (x ∷ xs) zero v = some (v ∷ xs)
store (x ∷ xs) (suc i) v = under x (store xs i v)

-- The first `n` bytes of an array.
abbrev pub load_prefix : List ℕ → ℕ → Option (List ℕ)
load_prefix xs zero = some []
load_prefix [] (suc n) = none
load_prefix (x ∷ xs) (suc n) = under x (load_prefix xs n)

-- `memcpy` of `n` bytes out of `a + i`.
abbrev pub load_range : List ℕ → ℕ → ℕ → Option (List ℕ)
load_range xs zero n = load_prefix xs n
load_range [] (suc i) n = load_prefix [] n
load_range (x ∷ xs) (suc i) n = load_range xs i n

-- `a[idx++] = x` for each `x` of a list; the result has the last `idx`.
pub write_all : List ℕ → List ℕ → ℕ → Option (List ℕ × ℕ)
write_all [] buf idx = some (buf, idx)
write_all (x ∷ xs) buf idx = do buf' ← store buf idx x; write_all xs buf' (suc idx)

-- `for (; n rounds; k++) a[idx++] = read(k)`
pub copy_loop : ℕ → ℕ → (ℕ → Option ℕ) → List ℕ → ℕ → Option (List ℕ × ℕ)
copy_loop zero k read buf idx = some (buf, idx)
copy_loop (suc n) k read buf idx = do
  v ← read k
  buf' ← store buf idx v
  copy_loop n (suc k) read buf' (suc idx)

-- The values of `g` at `k`, `k + 1`, up to `n` of them.
abbrev pub window : (ℕ → ℕ) → ℕ → ℕ → List ℕ
window g k zero = []
window g k (suc n) = g k ∷ window g (suc k) n
