-- ===== src/Bitmap/Laws.antt =====
-- The drawing loops against the specified columns.
use textreaderrpi.Common.{
  ℕ, zero, suc, ◌+◌, ◌-◌, ◌*◌, ◌≤◌, ◌<◌, ◌≡◌, refl, sym, ap, ap₂, ◌∙◌, some, List, [], ◌∷◌, ◌++◌,
  append_assoc, arith, ltb, lt→ltb, le→not_ltb, min, length, get_or, take, drop, replicate,
  length-append, length-take, length-drop, length-replicate, take-append-drop, get_or_past,
  get_or-append_left, Bool-cases, ltb→lt, not_ltb→le, inl, inr,
}
use textreaderrpi.Memory.{◌>>=◌}
use textreaderrpi.Memory.Laws.{load_lem, write_all_lem, store-append}
use textreaderrpi.Font.{glyph, text_columns}
use textreaderrpi.Font.Laws.{length-glyph, font_row-font_index, length-text_columns}
use textreaderrpi.Bitmap.{put_text, put_blank, build, column}
use textreaderrpi.Bitmap.Spec.{chars_below, bitmap, over}

cell_length : (c : ℕ) → length (glyph c ++ 0 ∷ []) ≡ 6
cell_length c = omega (arith, length-append (glyph c) (0 ∷ []), length-glyph c)

drop-nil : (n : ℕ) → drop {A = ℕ} n [] ≡ []
drop-nil zero = refl
drop-nil (suc n) = refl

drop-drop : (m n : ℕ) (xs : List ℕ) → drop n (drop m xs) ≡ drop (m + n) xs
drop-drop zero n xs = ap (λ k. drop k xs) (omega arith)
drop-drop (suc m) n [] = drop-nil n ∙ sym (drop-nil (suc m + n))
drop-drop (suc m) n (x ∷ xs) = drop-drop m n xs ∙ ap (λ k. drop k (x ∷ xs)) (suc_add m n)
  where
    suc_add : (a b : ℕ) → suc (a + b) ≡ suc a + b
    suc_add a b = omega arith

-- One character: six cells are replaced, and the loop goes on behind them.
put_text_step :
    (limit c : ℕ) (text pre old post : List ℕ)
    → length old ≡ 6
    → length pre < limit
    → put_text limit (c ∷ text) (pre ++ old ++ post) (length pre)
      ≡ put_text limit text (pre ++ (glyph c ++ 0 ∷ []) ++ post) (length pre + 6)
unfolding put_text
put_text_step limit c text pre old post six below = rw (
  lt→ltb (length pre) limit below,
  font_row-font_index,
  write_all_lem pre (glyph c ++ 0 ∷ []) old post (six ∙ sym (cell_length c)),
  cell_length,
)

put_text_stop :
    (limit : ℕ) (text out : List ℕ) (idx : ℕ)
    → limit ≤ idx
    → put_text limit text out idx ≡ some (out, idx)
unfolding put_text
put_text_stop limit [] out idx h = refl
put_text_stop limit (c ∷ text) out idx h = rw (le→not_ltb idx limit h)

-- What is put behind six cells in front of `post`, as one list put in front of it.
over-over : (xs ys post : List ℕ) → xs ++ over ys (drop (length xs) post) ≡ over (xs ++ ys) post
over-over xs ys post =
    rw (drop-drop (length xs) (length ys) post, length-append xs ys) (simp append_assoc)

over-append :
    (pre g cols post : List ℕ)
    → length g ≡ 6
    → pre ++ g ++ over cols (drop 6 post) ≡ pre ++ over (g ++ cols) post
over-append pre g cols post six =
    rw (drop-drop 6 (length cols) post, length-append g cols, six) (simp append_assoc)

pub put_text_lem :
    (limit : ℕ) (text pre post : List ℕ) (m : ℕ)
    → length pre + 6 * m ≡ 6 * chars_below limit
    → limit + 5 ≤ length pre + length post
    → put_text limit text (pre ++ post) (length pre)
      ≡ some (
        pre ++ over (text_columns (take m text)) post,
        length pre + length (text_columns (take m text)),
      )
unfolding text_columns
put_text_lem limit text pre post zero e room =
    put_text_stop limit text (pre ++ post) (length pre) (omega arith)
    ∙ ap (λ n. some (pre ++ post, n)) (omega arith)
put_text_lem limit [] pre post (suc m) e room =
    unfold put_text in ap (λ n. some (pre ++ post, n)) (omega arith)
put_text_lem limit (c ∷ text) pre post (suc m) e room =
    ap (λ o. put_text limit (c ∷ text) o (length pre)) split
    ∙ put_text_step limit c text pre (take 6 post) (drop 6 post) six (omega arith)
    ∙ ap (put_text limit text (pre ++ g ++ drop 6 post)) here
    ∙ put_text_lem limit text (pre ++ g) (drop 6 post) m (omega (arith, here))
        (omega (arith, here, length-drop 6 post))
    ∙ ap₂ (λ l n. some (l, n)) (over-append pre g _ post (cell_length c))
        (omega (arith, length-append pre g, length-append g (text_columns (take m text))))
  where
    g : List ℕ
    g = glyph c ++ 0 ∷ []

    six : length (take 6 post) ≡ 6
    six = omega (arith, length-take 6 post)

    split : pre ++ post ≡ pre ++ take 6 post ++ drop 6 post
    split = rw (append_assoc pre (take 6 post) (drop 6 post), take-append-drop 6 post)

    here : length pre + 6 ≡ length (pre ++ g)
    here = omega (arith, length-append pre g, cell_length c)

put_blank_stop :
    (n max_bytes : ℕ) (out : List ℕ) (idx : ℕ)
    → max_bytes ≤ idx
    → put_blank n max_bytes out idx ≡ some (out, idx)
unfolding put_blank
put_blank_stop zero max_bytes out idx h = refl
put_blank_stop (suc n) max_bytes out idx h = rw (le→not_ltb idx max_bytes h)

-- The padding: zeros up to the end of the array, at most `n` of them.
put_blank_run :
    (n max_bytes : ℕ) (pre post : List ℕ) (z : ℕ)
    → z ≡ min n (length post)
    → length pre + length post ≡ max_bytes
    → put_blank n max_bytes (pre ++ post) (length pre)
      ≡ some (pre ++ over (replicate z 0) post, length pre + z)
unfolding put_blank
put_blank_run zero max_bytes pre post (suc z) h e = absurd (omega arith)
put_blank_run zero max_bytes pre post zero h e = ap (λ k. some (pre ++ post, k)) (omega arith)
put_blank_run (suc n) max_bytes pre [] (suc z) h e = absurd (omega arith)
put_blank_run (suc n) max_bytes pre [] zero h e =
    put_blank_stop (suc n) max_bytes (pre ++ []) (length pre) (omega arith)
    ∙ ap (λ k. some (pre ++ [], k)) (omega arith)
put_blank_run (suc n) max_bytes pre (x ∷ post) zero h e = absurd (omega arith)
put_blank_run (suc n) max_bytes pre (x ∷ post) (suc z) h e =
    rw (lt→ltb (length pre) max_bytes (omega arith), store-append pre x post 0)
      (ap₂ (put_blank n max_bytes) (sym (append_assoc pre (0 ∷ []) post)) one
        ∙ put_blank_run n max_bytes (pre ++ 0 ∷ []) post z (omega arith) (omega (arith, one))
        ∙ ap₂ (λ l k. some (l, k)) (append_assoc pre (0 ∷ []) _) (omega (arith, one)))
  where
    one : suc (length pre) ≡ length (pre ++ 0 ∷ [])
    one = omega (arith, length-append pre (0 ∷ []))

module _ (limit trailing max_bytes : ℕ) (text : List ℕ) (room : limit + 5 ≤ max_bytes) where
  abbrev cols : List ℕ
  cols = text_columns (take (chars_below limit) text)

  length-cols : length cols ≤ max_bytes
  length-cols = omega (
    arith,
    length-text_columns (take (chars_below limit) text),
    length-take (chars_below limit) text,
  )

  pub length-bitmap-le : length (bitmap limit trailing max_bytes text) ≤ max_bytes
  unfolding bitmap
  length-bitmap-le = omega (
    arith,
    length-cols,
    length-append cols (replicate (min trailing (max_bytes - length cols)) 0),
    length-replicate {A = ℕ} (min trailing (max_bytes - length cols)) 0,
  )

  -- For an array of the given size, and a limit that leaves room for a character of six
  -- columns, the array holds the specified columns up to the returned index and is unchanged
  -- behind it; no write is outside the array.
  pub build-bitmap :
      (out : List ℕ)
      → length out ≡ max_bytes
      → build limit trailing max_bytes text out
        ≡ some (
          over (bitmap limit trailing max_bytes text) out,
          length (bitmap limit trailing max_bytes text),
        )
  unfolding build bitmap
  build-bitmap out e =
      ap (λ r. r >>= λ p. put_blank trailing max_bytes p.0 p.1) drawn
      ∙ put_blank_run trailing max_bytes cols (drop (length cols) out) pad
          (omega (arith, length-drop (length cols) out))
          (omega (arith, length-drop (length cols) out, length-cols))
      ∙ ap₂ (λ l n. some (l, n)) (over_twice out)
          (omega (arith, length-append cols (replicate pad 0), length-replicate {A = ℕ} pad 0))
    where
      pad : ℕ
      pad = min trailing (max_bytes - length cols)

      drawn : put_text limit text out 0 ≡ some (over cols out, length cols)
      drawn =
          put_text_lem limit text [] out (chars_below limit) (omega arith) (omega arith)
          ∙ ap (λ n. some (over cols out, n)) (omega arith)

      over_twice :
          (o : List ℕ)
          → cols ++ over (replicate pad 0) (drop (length cols) o) ≡ over (cols ++ replicate pad 0) o
      over_twice o = over-over cols (replicate pad 0) o

-- A read of the array as it is left gives the specified column, and zero behind the last one.
pub column-over : (b out : List ℕ) (i : ℕ) → column (over b out) (length b) i ≡ some (get_or b i 0)
unfolding column
column-over b out i = elim (Bool-cases (ltb i (length b))) [
  | inl inside ↦ rw inside (
      load_lem (over b out) i
        (omega (arith, length-append b (drop (length b) out), ltb→lt i (length b) inside))
      ∙ ap some (get_or-append_left b _ i 0 (ltb→lt i (length b) inside)))
  | inr outside ↦ rw outside (ap some (sym (get_or_past b i 0 (not_ltb→le i (length b) outside))))
]
