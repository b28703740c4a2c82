-- ===== src/Oled/Fill/Laws.antt =====
-- The frame buffer of a paged panel after it is filled, and its pages.
use textreaderrpi.Common.{
  ℕ, zero, suc, ◌+◌, ◌*◌, ◌<◌, ◌≡◌, refl, List, [], ◌++◌, some, length, get_or, take, drop, arith,
  ◌∷◌, ap, length-append, ◌∙◌, sym, append_assoc, take-append-drop, length-take, length-drop,
}
use textreaderrpi.Memory.{copy_loop, load_range, load_prefix, write_all}
use textreaderrpi.Memory.Laws.{copy_loop-eq-write_all, write_all_lem, load_prefix_lem}
use textreaderrpi.Bitmap
use textreaderrpi.Bitmap.Spec.{over}
use textreaderrpi.Bitmap.Laws.{column-over}
use textreaderrpi.Oled.Visible.{visible, length-visible, tile}
use textreaderrpi.Oled.Fill.{fill_pages, fill, load_page}

module _ (b out : List ℕ) (offset : ℕ) where
  abbrev w : List ℕ
  w = visible b offset

  fill_page :
      (pre old post : List ℕ) (page : ℕ)
      → length pre ≡ page * 128
      → length old ≡ 128
      → copy_loop 128 0
          (λ col. Bitmap.column (over b out) (length b) (offset + col))
          (pre ++ old ++ post)
          (page * 128)
        ≡ some (pre ++ w ++ post, page * 128 + 128)
  unfolding visible
  fill_page pre old post page at full =
      copy_loop-eq-write_all 128 0 128 _ (λ col. get_or b (offset + col) 0) (pre ++ old ++ post)
        (page * 128) (omega arith) (λ i lt. column-over b out (offset + i))
      ∙ ap (write_all w (pre ++ old ++ post)) (sym at)
      ∙ write_all_lem pre w old post (full ∙ sym (length-visible b offset))
      ∙ ap (λ n. some (pre ++ w ++ post, n)) (omega (arith, at, length-visible b offset))

  fill_pages_lem :
      (n page : ℕ) (pre post : List ℕ)
      → length pre ≡ page * 128
      → length post ≡ n * 128
      → fill_pages n page (over b out) (length b) offset (pre ++ post) ≡ some (pre ++ tile n w)
  unfolding fill_pages tile
  fill_pages_lem zero page pre [] at full = refl
  fill_pages_lem zero page pre (x ∷ post) at full = absurd (omega arith)
  fill_pages_lem (suc n) page pre post at full =
      rw (split, fill_page pre (take 128 post) (drop 128 post) page at old_full)
        (fill_pages_lem n (suc page) (pre ++ w) (drop 128 post)
            (omega (arith, length-append pre w, at, length-visible b offset))
            (omega (arith, length-drop 128 post, full))
          ∙ ap some (append_assoc pre w (tile n w)))
    where
      split : pre ++ post ≡ pre ++ take 128 post ++ drop 128 post
      split = sym (
          append_assoc pre (take 128 post) (drop 128 post)
          ∙ ap (λ l. pre ++ l) (take-append-drop 128 post))

      old_full : length (take 128 post) ≡ 128
      old_full = omega (arith, length-take 128 post, full)

  -- Whatever the buffer held, each of its pages now holds the visible columns.
  pub fill_lem :
      (fb : List ℕ) → length fb ≡ 1024 → fill (over b out) (length b) offset fb ≡ some (tile 8 w)
  unfolding fill
  fill_lem fb size = fill_pages_lem 8 0 [] fb (omega arith) (omega arith)

load_range-append :
    (pre xs : List ℕ) (i n : ℕ) → load_range (pre ++ xs) (length pre + i) n ≡ load_range xs i n
load_range-append [] xs i n = ap (λ k. load_range xs k n) (omega arith)
load_range-append (p ∷ pre) xs i n =
    ap (λ k. load_range (p ∷ pre ++ xs) k n) (suc_add (length pre) i) ∙ load_range-append pre xs i n
  where
    suc_add : (a b : ℕ) → suc a + b ≡ suc (a + b)
    suc_add a b = omega arith

load_page-tile :
    (w : List ℕ) (n page : ℕ)
    → length w ≡ 128
    → page < n
    → load_range (tile n w) (page * 128) 128 ≡ some w
unfolding tile
load_page-tile w zero page h lt = absurd (omega arith)
load_page-tile w (suc n) zero h lt =
    ap (load_prefix (w ++ tile n w)) (sym h) ∙ load_prefix_lem w (tile n w)
load_page-tile w (suc n) (suc page) h lt =
    ap (λ k. load_range (w ++ tile n w) k 128) (step page h)
    ∙ load_range-append w (tile n w) (page * 128) 128
    ∙ load_page-tile w n page h (omega arith)
  where
    step : (p : ℕ) → length w ≡ 128 → suc p * 128 ≡ length w + p * 128
    step p e = omega arith

pub load_page_lem :
    (w : List ℕ) (page : ℕ) → length w ≡ 128 → page < 8 → load_page (tile 8 w) page ≡ some w
unfolding load_page
load_page_lem w page h lt = load_page-tile w 8 page h lt
