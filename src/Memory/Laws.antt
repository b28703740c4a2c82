-- ===== src/Memory/Laws.antt =====
-- Accesses inside an array, and the arrays that the writing loops leave.
use mathlib.Core.List.{reverse, reverse-append}
use textreaderrpi.Common.{
  take, drop, ℕ, zero, suc, ◌+◌, ◌<◌, ◌≡◌, refl, ap, ◌∙◌, fun_ext, Option, none, some, List, [],
  ◌∷◌, ◌++◌, arith, length, get_or, ◌≤◌, ap₂, length-append,
}
use textreaderrpi.Memory.{
  ◌>>=◌, load, under, store, load_prefix, load_range, write_all, copy_loop, window,
}

pub length-window : (g : ℕ → ℕ) (k n : ℕ) → length (window g k n) ≡ n
length-window g k zero = refl
length-window g k (suc n) = ap suc (length-window g (suc k) n)

pub load_lem : (xs : List ℕ) (i : ℕ) → i < length xs → load xs i ≡ some (get_or xs i 0)
load_lem [] i h = absurd (omega arith)
load_lem (x ∷ xs) zero h = refl
load_lem (x ∷ xs) (suc i) h = load_lem xs i (omega arith)

pub load_prefix_lem : (xs ys : List ℕ) → load_prefix (xs ++ ys) (length xs) ≡ some xs
load_prefix_lem [] ys = refl
load_prefix_lem (x ∷ xs) ys = ap (under x) (load_prefix_lem xs ys)

-- A copy of the middle part of an array.
pub load_range_lem :
    (pre xs post : List ℕ) → load_range (pre ++ xs ++ post) (length pre) (length xs) ≡ some xs
load_range_lem [] xs post = load_prefix_lem xs post
load_range_lem (p ∷ pre) xs post = load_range_lem pre xs post

abbrev shift : ℕ → Option (List ℕ × ℕ) → Option (List ℕ × ℕ)
shift y none = none
shift y (some (buf, idx)) = some (y ∷ buf, suc idx)

shift-bind :
    (y : ℕ) (m : Option (List ℕ)) (f g : List ℕ → Option (List ℕ × ℕ))
    → ((b : List ℕ) → f (y ∷ b) ≡ shift y (g b))
    → (under y m >>= f) ≡ shift y (m >>= g)
shift-bind y none f g h = refl
shift-bind y (some b) f g h = h b

write_all-cons :
    (xs : List ℕ) (y : ℕ) (buf : List ℕ) (i : ℕ)
    → write_all xs (y ∷ buf) (suc i) ≡ shift y (write_all xs buf i)
unfolding write_all
write_all-cons [] y buf i = refl
write_all-cons (x ∷ xs) y buf i =
    shift-bind y (store buf i x) _ _ (λ b. write_all-cons xs y b (suc i))

pub write_all_front :
    (xs old post : List ℕ)
    → length old ≡ length xs
    → write_all xs (old ++ post) 0 ≡ some (xs ++ post, length xs)
unfolding write_all
write_all_front [] [] post h = refl
write_all_front [] (o ∷ old) post h = absurd (omega arith)
write_all_front (x ∷ xs) [] post h = absurd (omega arith)
write_all_front (x ∷ xs) (o ∷ old) post h =
    write_all-cons xs x (old ++ post) 0 ∙ ap (shift x) (write_all_front xs old post (omega arith))

-- Consecutive writes replace exactly the cells that they reach.
pub write_all_lem :
    (pre xs old post : List ℕ)
    → length old ≡ length xs
    → write_all xs (pre ++ old ++ post) (length pre)
      ≡ some (pre ++ xs ++ post, length pre + length xs)
write_all_lem [] xs old post h =
    write_all_front xs old post h ∙ ap (λ n. some (xs ++ post, n)) (omega arith)
write_all_lem (p ∷ pre) xs old post h =
    write_all-cons xs p (pre ++ old ++ post) (length pre)
    ∙ ap (shift p) (write_all_lem pre xs old post h)
    ∙ ap (λ n. some (p ∷ pre ++ xs ++ post, n)) (omega arith)

pub copy_loop-eq-write_all :
    (n k hi : ℕ) (read : ℕ → Option ℕ) (g : ℕ → ℕ) (buf : List ℕ) (idx : ℕ)
    → k + n ≤ hi
    → ((i : ℕ) → i < hi → read i ≡ some (g i))
    → copy_loop n k read buf idx ≡ write_all (window g k n) buf idx
unfolding copy_loop write_all
copy_loop-eq-write_all zero k hi read g buf idx fits h = refl
copy_loop-eq-write_all (suc n) k hi read g buf idx fits h = rw (h k (omega arith)) (
    ap (λ f. store buf idx (g k) >>= f)
      (fun_ext λ b. copy_loop-eq-write_all n (suc k) hi read g b (suc idx) (omega arith) h))

pub window-cong :
    (f g : ℕ → ℕ) (n k hi : ℕ)
    → k + n ≤ hi
    → ((i : ℕ) → i < hi → f i ≡ g i)
    → window f k n ≡ window g k n
window-cong f g zero k hi fits h = refl
window-cong f g (suc n) k hi fits h =
    ap₂ ◌∷◌ (h k (omega arith)) (window-cong f g n (suc k) hi (omega arith) h)

pub window_snoc : (g : ℕ → ℕ) (k n : ℕ) → window g k (suc n) ≡ window g k n ++ g (k + n) ∷ []
window_snoc g k zero = ap (λ i. g i ∷ []) (omega arith)
window_snoc g k (suc n) =
    ap (λ l. g k ∷ l)
      (window_snoc g (suc k) n ∙ ap (λ i. window g (suc k) n ++ g i ∷ []) (shift_one k n))
  where
    shift_one : (a b : ℕ) → suc a + b ≡ a + suc b
    shift_one a b = omega arith

pub store-append :
    (pre : List ℕ) (x : ℕ) (post : List ℕ) (v : ℕ)
    → store (pre ++ x ∷ post) (length pre) v ≡ some (pre ++ v ∷ post)
store-append [] x post v = refl
store-append (p ∷ pre) x post v = ap (under p) (store-append pre x post v)

pub length-reverse : (xs : List ℕ) → length (reverse xs) ≡ length xs
length-reverse [] = refl
length-reverse (x ∷ xs) =
    ap length (reverse-append (x ∷ []) xs)
    ∙ omega (arith, length-append (reverse xs) (x ∷ []), length-reverse xs)

load_prefix-take : (xs : List ℕ) (n : ℕ) → n ≤ length xs → load_prefix xs n ≡ some (take n xs)
load_prefix-take xs zero h = refl
load_prefix-take [] (suc n) h = absurd (omega arith)
load_prefix-take (x ∷ xs) (suc n) h = ap (under x) (load_prefix-take xs n (omega arith))

pub load_range-take :
    (xs : List ℕ) (i n : ℕ) → i + n ≤ length xs → load_range xs i n ≡ some (take n (drop i xs))
load_range-take xs zero n h = load_prefix-take xs n (omega arith)
load_range-take [] (suc i) n h = load_prefix-take [] n (omega arith)
load_range-take (x ∷ xs) (suc i) n h = load_range-take xs i n (omega arith)
