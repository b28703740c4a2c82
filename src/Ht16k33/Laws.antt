-- ===== src/Ht16k33/Laws.antt =====
-- The operations of the HT16K33 drivers against their specification.
use textreaderrpi.Ht16k33.Char.Laws.{render_char-transposed}
use textreaderrpi.Memory.Laws.{load_lem}
use mathlib.Core.List
use mathlib.Core.Path.{subst}
use textreaderrpi.Driver.Loops.{traces_up, traces_down}
use textreaderrpi.Common.Text.{codes, same_text}
use textreaderrpi.Common.Int.{ℤ}
use textreaderrpi.Machine.{M, Trace, emit, i2c_write}
use textreaderrpi.Driver.{clamp_speed}
use textreaderrpi.Ht16k33.Spec.{blink_trace, fade_trace, slides, frame, row_words, effect_trace}
use textreaderrpi.Ht16k33.{
  flush, show, scroll, blink, reverse, fade, display_text, first, blink_command, delay,
}
use textreaderrpi.Font.{glyph}
use textreaderrpi.Ht16k33.Spec.{row_bits, transposed, start_of, command, rate, level}
use textreaderrpi.Common.{
  if_both, length, take, get_or, take_all, append-nil, zero, suc, [], ℕ, ◌<◌, List, ◌≡◌, ◌+◌, some,
  ◌/◌, ◌*◌, ap, arith, ◌∷◌, refl, ◌∙◌, ◌++◌, ◌≤◌,
}
use textreaderrpi.Ht16k33.Char.{row_pairs}
use textreaderrpi.Memory.{window}

-- What an operation does: it succeeds, with some array, and its actions are `t`.
abbrev pub Sends : M (List ℕ) → Trace → Type 0
Sends m t = (s_rows : List ℕ) × (m ≡ some (s_rows, t))

flush_lem :
    (f : ℕ → ℕ) → flush (window f 0 8) ≡ emit (i2c_write 0x70 (0 ∷ row_words (window f 0 8)) ∷ [])
unfolding flush row_pairs
flush_lem f = refl

show_lem : (c : ℕ) → show c ≡ some (transposed (glyph c), frame c)
unfolding show frame transposed
show_lem c = rw (render_char-transposed c, flush_lem (λ row. row_bits row (glyph c))) refl

scroll-Sends : (sp : ℕ) (text s_rows : List ℕ) → Sends (scroll sp text s_rows) (slides sp text)
unfolding scroll slides
scroll-Sends sp [] s_rows = (s_rows, refl)
scroll-Sends sp (c ∷ text) s_rows =
    let rest = scroll-Sends sp text (transposed (glyph c)) in (rest.0, rw (show_lem c, rest.1) refl)

show-first :
    (text : List ℕ) → show (first text) ≡ some (transposed (glyph (first text)), start_of text)
unfolding start_of
show-first [] = show_lem 0
show-first (c ∷ text) = show_lem c

blink_command-rate : (sp : ℕ) → blink_command sp ≡ rate sp
unfolding blink_command rate
blink_command-rate sp = ground arith

blink-Sends : (sp : ℕ) (text : List ℕ) → Sends (blink sp text) (blink_trace text sp)
unfolding blink blink_trace command
blink-Sends sp text = (
  transposed (glyph (first text)),
  rw (show-first text, blink_command-rate sp)
      (rw (append-nil (command (rate sp) ++ (delay (sp * 6) ∷ command 0x81))) refl),
)

take-suc : (n : ℕ) (xs : List ℕ) → n < length xs → take (suc n) xs ≡ take n xs ++ get_or xs n 0 ∷ []
take-suc n [] h = absurd (omega arith)
take-suc zero (x ∷ xs) h = refl
take-suc (suc n) (x ∷ xs) h = ap (λ l. x ∷ l) (take-suc n xs (omega arith))

reverse-take :
    (n : ℕ) (xs : List ℕ)
    → n < length xs
    → List.reverse (take (suc n) xs) ≡ get_or xs n 0 ∷ List.reverse (take n xs)
reverse-take n xs h =
    ap List.reverse (take-suc n xs h) ∙ List.reverse-append (take n xs) (get_or xs n 0 ∷ [])

reverse-Sends :
    (n sp : ℕ) (text s_rows : List ℕ)
    → n ≤ length text
    → Sends (reverse n sp text s_rows) (slides sp (List.reverse (take n text)))
unfolding reverse slides
reverse-Sends zero sp text s_rows h = (s_rows, refl)
reverse-Sends (suc n) sp text s_rows h =
    let c = get_or text n 0 in
    let rest = reverse-Sends n sp text (transposed (glyph c)) (omega arith) in
    (
      rest.0,
      rw (reverse-take n text (omega arith), load_lem text n (omega arith), show_lem c, rest.1)
          refl,
    )

fade-Sends :
    (sp : ℕ) (text : List ℕ) → Sends (fade sp text) (start_of text ++ fade_trace (sp / 16 + 1))
unfolding fade fade_trace level command traces_up traces_down
fade-Sends sp text = (
  transposed (glyph (first text)),
  rw (show-first text) (rw (append-nil (fade_trace (sp / 16 + 1))) refl),
)

-- For every content of `s_rows`, text, effect and speed, `display_text` succeeds and sends exactly
-- the transposed glyphs, commands and waits of the specification: SCROLL and REVERSE show a
-- character at a time, and BLINK and FADE take their pace from the speed.
pub display_text-slides :
    (s_rows text effect : List ℕ) (speed_ms : ℤ)
    → Sends
        (display_text s_rows text effect speed_ms)
        (effect_trace text effect (clamp_speed speed_ms))
unfolding display_text effect_trace
display_text-slides s_rows text effect speed_ms =
    let sp = clamp_speed speed_ms in
    if_both Sends (same_text effect (codes "SCROLL")) (scroll-Sends sp text s_rows) (
      if_both Sends (same_text effect (codes "BLINK")) (blink-Sends sp text) (
        if_both Sends (same_text effect (codes "REVERSE"))
          (subst (λ t. Sends (reverse (length text) sp text s_rows) (slides sp (List.reverse t)))
            (take_all (length text) text (omega arith))
            (reverse-Sends (length text) sp text s_rows (omega arith)))
          (if_both Sends (same_text effect (codes "FADE")) (fade-Sends sp text) (s_rows, refl))))
