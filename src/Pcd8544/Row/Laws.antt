-- ===== src/Pcd8544/Row/Laws.antt =====
-- The frame buffer that a frame leaves, and its cells.
use textreaderrpi.Bitmap.Laws.{column-over}
use textreaderrpi.Memory.Laws.{copy_loop-eq-write_all, write_all_front, length-window, load_lem}
use textreaderrpi.Bitmap.Spec.{over}
use textreaderrpi.Memory.{window, write_all, load, copy_loop}
use textreaderrpi.Bitmap
use textreaderrpi.Pcd8544.{fill_row}
use textreaderrpi.Pcd8544.Spec.{cell}
use textreaderrpi.Common.{
  Bool-cases, inl, inr, ltb, ℕ, zero, suc, ◌+◌, List, [], ◌∷◌, ◌++◌, length, ◌≡◌, ◌<◌, get_or, some,
  arith, replicate, length-append, ap, ◌∙◌, refl, replicate-add, length-replicate, ◌≤◌,
  get_or-append_left, ltb→lt, not_ltb→le,
}

get_or-window : (g : ℕ → ℕ) (k n i : ℕ) → i < n → get_or (window g k n) i 0 ≡ g (k + i)
get_or-window g k zero i lt = absurd (omega arith)
get_or-window g k (suc n) zero lt = ap g (omega arith)
get_or-window g k (suc n) (suc i) lt = get_or-window g (suc k) n i (omega arith) ∙ ap g (swap k i)
  where
    swap : (a b : ℕ) → suc a + b ≡ a + suc b
    swap a b = omega arith

-- The frame buffer of a frame.
abbrev pub row : List ℕ → ℕ → List ℕ
row b offset = window (λ col. get_or b (offset + col) 0) 0 84 ++ replicate 420 0

get_or-replicate : (n i : ℕ) → get_or (replicate {A = ℕ} n 0) i 0 ≡ 0
get_or-replicate zero i = refl
get_or-replicate (suc n) zero = refl
get_or-replicate (suc n) (suc i) = get_or-replicate n i

get_or_blank : (xs : List ℕ) (n i : ℕ) → length xs ≤ i → get_or (xs ++ replicate n 0) i 0 ≡ 0
get_or_blank [] n i h = get_or-replicate n i
get_or_blank (x ∷ xs) n zero h = absurd (omega arith)
get_or_blank (x ∷ xs) n (suc i) h = get_or_blank xs n i (omega arith)

module _ (b : List ℕ) (offset : ℕ) where
  abbrev w : List ℕ
  w = window (λ col. get_or b (offset + col) 0) 0 84

  length-w : length w ≡ 84
  length-w = length-window (λ col. get_or b (offset + col) 0) 0 84

  get_or-row : (i : ℕ) → get_or (row b offset) i 0 ≡ cell b offset i
  unfolding cell
  get_or-row i = elim (Bool-cases (ltb i 84)) [
    | inl t ↦ rw t (
        get_or-append_left w (replicate 420 0) i 0 (omega (arith, length-w, ltb→lt i 84 t))
        ∙ get_or-window (λ col. get_or b (offset + col) 0) 0 84 i (ltb→lt i 84 t)
        ∙ ap (λ k. get_or b (offset + k) 0) (omega arith))
    | inr f ↦ rw f (get_or_blank w 420 i (omega (arith, length-w, not_ltb→le i 84 f)))
  ]

  pub row-cell : (i : ℕ) → i < 504 → load (row b offset) i ≡ some (cell b offset i)
  row-cell i lt =
      load_lem (row b offset) i
        (omega (arith, length-append w (replicate 420 0), length-w, length-replicate {A = ℕ} 420 0))
      ∙ ap some (get_or-row i)

module _ (b out : List ℕ) where
  pub fill_row-row :
      (offset : ℕ) → fill_row (over b out) (length b) offset (replicate 504 0) ≡ some (row b offset)
  unfolding fill_row
  fill_row-row offset = rw (filled) refl
    where
      filled :
          copy_loop 84 0
            (λ col. Bitmap.column (over b out) (length b) (offset + col))
            (replicate 504 0)
            0
          ≡ some (row b offset, 84)
      filled =
          copy_loop-eq-write_all 84 0 84 _ (λ col. get_or b (offset + col) 0) (replicate 504 0) 0
            (omega arith) (λ i lt. column-over b out (offset + i))
          ∙ ap (λ l. write_all (window (λ col. get_or b (offset + col) 0) 0 84) l 0)
              (replicate-add 84 420 0)
          ∙ write_all_front (window (λ col. get_or b (offset + col) 0) 0 84) (replicate 84 0)
              (replicate 420 0)
              (omega (
                arith,
                length-window (λ col. get_or b (offset + col) 0) 0 84,
                length-replicate {A = ℕ} 84 0,
              ))
          ∙ ap (λ n. some (row b offset, n)) (length-window (λ col. get_or b (offset + col) 0) 0 84)
