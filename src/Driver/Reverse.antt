-- ===== src/Driver/Reverse.antt =====
-- The copy that the REVERSE effect makes of a text:
-- `char rev[128]; cl = len < 127 ? len : 127; for (i < cl) rev[i] = text[cl - 1 - i]; rev[cl] = 0;`
use mathlib.Core.List.{reverse, reverse-append}
use textreaderrpi.Common.{
  ℕ, suc, ◌+◌, ◌-◌, ◌<◌, ◌≡◌, List, [], ◌∷◌, ◌++◌, Option, some, if◌then◌else◌, ltb, length, take,
  get_or, replicate, ◌∙◌, ap₂, arith, ap, sym, refl, get_or-append_left, ◌≤◌, length-take,
  take-append-drop, drop, length-replicate, replicate-add,
}
use textreaderrpi.Memory.{load, store, ◌>>=◌, load_prefix, copy_loop, window, write_all}
use textreaderrpi.Memory.Laws.{
  length-reverse, load_lem, load_prefix_lem, copy_loop-eq-write_all, write_all_lem, window-cong,
  window_snoc, store-append,
}

abbrev pub copy_length : List ℕ → ℕ
copy_length text = if ltb (length text) 127 then length text else 127

-- The buffer is read back as a C string, up to the NUL that is stored behind the copy. Its content
-- before the copy is never read.
unfoldable pub reversed : List ℕ → Option (List ℕ)
reversed text = do
  (rev, n) ←
      copy_loop (copy_length text) 0 (λ i. load text (copy_length text - 1 - i)) (replicate 128 0) 0
  rev' ← store rev (copy_length text) 0
  load_prefix rev' (copy_length text)

backwards : (t : List ℕ) → window (λ i. get_or t (length t - 1 - i) 0) 0 (length t) ≡ reverse t
backwards [] = refl
backwards (x ∷ t) =
    window_snoc _ 0 (length t)
    ∙ ap₂ ◌++◌
        (window-cong _ (λ i. get_or t (length t - 1 - i) 0) (length t) 0 (length t) (omega arith)
            inner
          ∙ backwards t)
        (ap (λ k. get_or (x ∷ t) k 0 ∷ []) (last_index (length t)))
    ∙ sym (reverse-append (x ∷ []) t)
  where
    inner_index : (n i : ℕ) → i < n → suc n - 1 - i ≡ suc (n - 1 - i)
    inner_index n i h = omega arith

    inner :
        (i : ℕ)
        → i < length t
        → get_or (x ∷ t) (suc (length t) - 1 - i) 0 ≡ get_or t (length t - 1 - i) 0
    inner i h = ap (λ k. get_or (x ∷ t) k 0) (inner_index (length t) i h)

    last_index : (n : ℕ) → suc n - 1 - (0 + n) ≡ 0
    last_index n = omega arith

length-copied : (text : List ℕ) → length (take 127 text) ≡ copy_length text
length-copied text = length-take 127 text ∙ ground arith

-- The values that the loop stores.
copied :
    (text : List ℕ)
    → window (λ i. get_or text (copy_length text - 1 - i) 0) 0 (copy_length text)
      ≡ reverse (take 127 text)
copied text =
    window-cong _ _ (copy_length text) 0 (copy_length text) (omega arith) inside
    ∙ ap (λ n. window (λ i. get_or t (n - 1 - i) 0) 0 n) (sym (length-copied text))
    ∙ backwards t
  where
    t : List ℕ
    t = take 127 text

    inside :
        (i : ℕ)
        → i < copy_length text
        → get_or text (copy_length text - 1 - i) 0 ≡ get_or t (copy_length text - 1 - i) 0
    inside i h =
        ap (λ l. get_or l (copy_length text - 1 - i) 0) (sym (take-append-drop 127 text))
        ∙ get_or-append_left t (drop 127 text) (copy_length text - 1 - i) 0
            (omega (arith, length-copied text))

-- The copy stays inside both arrays, and what is displayed is the first 127 bytes, last one first.
pub reversed_lem : (text : List ℕ) → reversed text ≡ some (reverse (take 127 text))
unfolding reversed
reversed_lem text =
    rw (loop, store_nul)
      (ap (load_prefix (w ++ 0 ∷ replicate (127 - cl) 0)) (sym size)
        ∙ load_prefix_lem w (0 ∷ replicate (127 - cl) 0))
  where
    cl : ℕ
    cl = copy_length text

    w : List ℕ
    w = reverse (take 127 text)

    size : length w ≡ cl
    size = length-reverse (take 127 text) ∙ length-copied text

    small : cl ≤ 127
    small = ground arith

    room : replicate {A = ℕ} 128 0 ≡ replicate {A = ℕ} cl 0 ++ 0 ∷ replicate (127 - cl) 0
    room =
        let e : 128 ≡ cl + suc (127 - cl) = omega (arith, small) in
        ap (λ n. replicate {A = ℕ} n 0) e ∙ replicate-add cl (suc (127 - cl)) 0

    in_text : (i : ℕ) → i < cl → load text (cl - 1 - i) ≡ some (get_or text (cl - 1 - i) 0)
    in_text i h = load_lem text (cl - 1 - i) (ground arith)

    loop :
        copy_loop cl 0 (λ i. load text (cl - 1 - i)) (replicate 128 0) 0
        ≡ some (w ++ 0 ∷ replicate (127 - cl) 0, cl)
    loop =
        copy_loop-eq-write_all cl 0 cl _ (λ i. get_or text (cl - 1 - i) 0) (replicate 128 0) 0
          (omega arith) in_text
        ∙ ap₂ (λ l b. write_all l b 0) (copied text) room
        ∙ write_all_lem [] w (replicate cl 0) (0 ∷ replicate (127 - cl) 0)
            (length-replicate {A = ℕ} cl 0 ∙ sym size)
        ∙ ap (λ n. some (w ++ 0 ∷ replicate (127 - cl) 0, n)) (omega (arith, size))

    store_nul :
        store (w ++ 0 ∷ replicate (127 - cl) 0) cl 0 ≡ some (w ++ 0 ∷ replicate (127 - cl) 0)
    store_nul =
        ap (λ n. store (w ++ 0 ∷ replicate (127 - cl) 0) n 0) (sym size)
        ∙ store-append w 0 (replicate (127 - cl) 0) 0
