-- ===== src/Pico/Credentials/Arrays.antt =====
-- C strings in the arrays of the credentials: what `strncpy` leaves, and how it is read again.
use textreaderrpi.Common.{
  ℕ, zero, suc, ◌+◌, ◌-◌, ◌≤◌, ◌≡◌, refl, ap, sym, ◌∙◌, List, [], ◌∷◌, ◌++◌, arith, length, take,
  drop, replicate, replicate-add, append_assoc, length-append, length-replicate, length-take,
  take-length_append, drop-length_append, ◌==◌, false,
}
use textreaderrpi.Common.Text.{IsCString, c_string}
use textreaderrpi.Pico.Credentials.{strncpy}

pub c_string-padded : (s : List ℕ) (k : ℕ) → IsCString s → c_string (s ++ replicate k 0) ≡ s
c_string-padded [] zero t = refl
c_string-padded [] (suc k) t = refl
c_string-padded (c ∷ s) k t = rw (different, c_string-padded s k t.1) refl
  where
    different : (c == 0) ≡ false
    different = ground arith

-- The contents of an array of `n + 1` bytes that holds a string.
abbrev pub padded : ℕ → List ℕ → List ℕ
padded n s = s ++ replicate (suc n - length s) 0

pub take_front : (xs ys : List ℕ) (n : ℕ) → length xs ≡ n → take n (xs ++ ys) ≡ xs
take_front xs ys n e = rw (sym e) (take-length_append xs ys)

pub drop_front : (xs ys : List ℕ) (n : ℕ) → length xs ≡ n → drop n (xs ++ ys) ≡ ys
drop_front xs ys n e = rw (sym e) (drop-length_append xs ys)

take-replicate : (n m : ℕ) → n ≤ m → take n (replicate {A = ℕ} m 0) ≡ replicate n 0
take-replicate zero m h = refl
take-replicate (suc n) zero h = absurd (omega arith)
take-replicate (suc n) (suc m) h = ap (λ l. 0 ∷ l) (take-replicate n m (omega arith))

take_padded :
    (s : List ℕ) (n m : ℕ)
    → length s ≤ n
    → n ≤ length s + m
    → take n (s ++ replicate m 0) ≡ s ++ replicate (n - length s) 0
take_padded [] n m h room = take-replicate n m (omega arith) ∙ ap (λ k. replicate k 0) all
  where
    all : n ≡ n - 0
    all = omega arith
take_padded (c ∷ s) zero m h room = absurd (omega arith)
take_padded (c ∷ s) (suc n) m h room =
    ap (λ l. c ∷ l)
      (take_padded s n m (omega arith) (omega arith) ∙ ap (λ k. s ++ replicate k 0) same)
  where
    same : n - length s ≡ suc n - suc (length s)
    same = omega arith

closed :
    (n : ℕ) (s : List ℕ) → length s ≤ n → (s ++ replicate (n - length s) 0) ++ 0 ∷ [] ≡ padded n s
closed n s short =
    append_assoc s (replicate (n - length s) 0) (0 ∷ [])
    ∙ ap (λ l. s ++ l) (sym (replicate-add (n - length s) 1 0) ∙ ap (λ k. replicate k 0) one_more)
  where
    one_more : n - length s + 1 ≡ suc n - length s
    one_more = omega arith

pub strncpy-padded :
    (n : ℕ) (s dst : List ℕ) → length s ≤ n → drop n dst ≡ 0 ∷ [] → strncpy n s dst ≡ padded n s
unfolding strncpy
strncpy-padded n s dst short last =
    rw (last, take_padded s n n short (omega arith)) (closed n s short)

-- The array is cut after `n` bytes and closed with a NUL again.
pub reclosed : (n : ℕ) (s : List ℕ) → length s ≤ n → take n (padded n s) ++ 0 ∷ [] ≡ padded n s
reclosed n s short = rw (take_padded s n (suc n - length s) short (omega arith)) (closed n s short)

pub length-padded : (n : ℕ) (s : List ℕ) → length s ≤ n → length (padded n s) ≡ suc n
length-padded n s h = omega (
  arith,
  length-append s (replicate (suc n - length s) 0),
  length-replicate {A = ℕ} (suc n - length s) 0,
)

pub strncpy-end : (n : ℕ) (src dst : List ℕ) → drop n (strncpy n src dst) ≡ drop n dst
unfolding strncpy
strncpy-end n src dst = drop_front (take n (src ++ replicate n 0)) (drop n dst) n size
  where
    size : length (take n (src ++ replicate n 0)) ≡ n
    size = omega (
      arith,
      length-take n (src ++ replicate n 0),
      length-append src (replicate n 0),
      length-replicate {A = ℕ} n 0,
    )
