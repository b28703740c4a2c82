-- ===== src/Pcd8544/Laws.antt =====
-- The operations of the PCD8544 drivers against their specification.
use textreaderrpi.Pcd8544.Row.Laws.{row, row-cell, fill_row-row}
use textreaderrpi.Driver.Reverse.{reversed_lem}
use textreaderrpi.Bitmap.Laws.{build-bitmap, length-bitmap-le}
use textreaderrpi.Driver.Loops.{for_up-traces_up}
use textreaderrpi.Bitmap.Spec.{over}
use mathlib.Core.List
use textreaderrpi.Common.Int.{ℤ}
use textreaderrpi.Common.Text.{codes, same_text}
use textreaderrpi.Machine.{lift, M, Trace, emit, delay, ◌>>◌, ◌>>=◌, pure}
use textreaderrpi.Memory.{load}
use textreaderrpi.Driver.Loops.{traces_up}
use textreaderrpi.Pcd8544.{
  State, flush, show_at, scroll_from, scroll, show_start, reverse, display_text, blink_loop,
  fade_loops, set_contrast, build_bitmap, traces_up,
}
use textreaderrpi.Pcd8544.Spec.{
  columns, cell, frame, shown, scroll_trace, effect_trace, blinking, level, rising, falling, fading,
}
use textreaderrpi.Driver.{clamp_speed}
use textreaderrpi.Common.{
  if_both, ℕ, zero, suc, ◌+◌, List, [], ◌∷◌, ◌++◌, length, ◌≡◌, some, arith, length-append, ap,
  append-nil, drop, refl, length-drop, sym, take, ◌-◌, ◌/◌, append_assoc,
}

-- The array `bmp` has 512 bytes; the frame buffer is rewritten before it is read.
pub record IsValid (s : State) : Type 0 where
  pub bmp_size : length s.bmp ≡ 512

-- The computation succeeds with just these actions, and the arrays keep their sizes.
abbrev pub Sends : M State → Trace → Type 0
Sends m t = (s : State) × (m ≡ some (s, t)) × IsValid s

build_bitmap-columns :
    (text out : List ℕ)
    → length out ≡ 512
    → build_bitmap text out ≡ some (over (columns text) out, length (columns text))
unfolding build_bitmap columns
build_bitmap-columns text out size = build-bitmap 506 84 512 text (omega arith) out size

length-over : (text out : List ℕ) → length out ≡ 512 → length (over (columns text) out) ≡ 512
unfolding columns
length-over text out size = omega (
  arith,
  length-append (columns text) (drop (length (columns text)) out),
  length-drop (length (columns text)) out,
  length-bitmap-le 506 84 512 text (omega arith),
)

module _ (write : ℕ → ℕ → Trace) where
  flush-frame : (b : List ℕ) (offset : ℕ) → flush write (row b offset) ≡ emit (frame write b offset)
  unfolding flush frame
  flush-frame b offset =
      rw
        (for_up-traces_up 504 0 504
          (λ i. lift (load (row b offset) i) >>= λ byte. emit (write byte 1))
          (λ i. write (cell b offset i) 1) (omega arith)
          (λ i lt. ap (λ m. lift m >>= λ byte. emit (write byte 1)) (row-cell b offset i lt)))
        refl

  module _ (b out : List ℕ) where
    show_at-frame :
        (offset : ℕ)
        → show_at write (over b out) (length b) offset ≡ some (row b offset, frame write b offset)
    unfolding show_at
    show_at-frame offset =
        rw (fill_row-row b out offset, flush-frame b offset, append-nil (frame write b offset)) refl

    scroll_from-shown :
        (sp n k : ℕ) (fb : List ℕ)
        → (fb' : List ℕ) × (scroll_from write n k (over b out) (length b) sp fb
            ≡ some (fb', traces_up n k (shown write b sp)))
    unfolding scroll_from shown traces_up
    scroll_from-shown sp zero k fb = (fb, refl)
    scroll_from-shown sp (suc n) k fb =
        let rest = scroll_from-shown sp n (suc k) (row b k) in
        (
          rest.0,
          rw (show_at-frame k, rest.1)
              (ap (λ t. some (rest.0, t))
                (sym (
                  append_assoc (frame write b k) (delay sp ∷ [])
                    (traces_up n (suc k) (λ o. frame write b o ++ delay sp ∷ []))))),
        )

  module _ (s : State) (v : IsValid s) where
    scroll-Sends :
        (text : List ℕ) (sp : ℕ)
        → Sends (scroll write text sp s) (scroll_trace write (columns text) sp)
    unfolding scroll scroll_trace
    scroll-Sends text sp =
        let b = columns text in
        let run = scroll_from-shown b s.bmp sp (length b + 1 - 84) 0 s.s_fb in
        (
          record { s_fb = run.0; bmp = over b s.bmp },
          rw
              (
                build_bitmap-columns text s.bmp v.bmp_size,
                run.1,
                append-nil (traces_up (length b + 1 - 84) 0 (shown write b sp)),
              )
              refl,
          record { bmp_size = length-over text s.bmp v.bmp_size },
        )

    show_start_then :
        (text : List ℕ) (u : Trace)
        → Sends
            (show_start write text s >>= λ s'. emit u >> pure s')
            (frame write (columns text) 0 ++ u)
    unfolding show_start
    show_start_then text u =
        let b = columns text in
        (
          record { s_fb = row b 0; bmp = over b s.bmp },
          rw
              (
                build_bitmap-columns text s.bmp v.bmp_size,
                show_at-frame b s.bmp 0,
                append-nil (frame write b 0),
                append-nil u,
              )
              refl,
          record { bmp_size = length-over text s.bmp v.bmp_size },
        )

    reverse-Sends :
        (text : List ℕ) (sp : ℕ)
        → Sends
            (reverse write text sp s)
            (scroll_trace write (columns (List.reverse (take 127 text))) sp)
    unfolding reverse
    reverse-Sends text sp =
        let sent = scroll-Sends (List.reverse (take 127 text)) sp in
        (sent.0, rw (reversed_lem text, sent.1) refl, sent.2)

blink_loop-blinking : (write : ℕ → ℕ → Trace) (sp : ℕ) → blink_loop write sp ≡ blinking write sp
unfolding blink_loop blinking
blink_loop-blinking write sp = refl

fade_loops-fading : (write : ℕ → ℕ → Trace) (ms : ℕ) → fade_loops write ms ≡ fading write ms
unfolding fade_loops fading set_contrast traces_up rising falling level
fade_loops-fading write ms = refl

-- If `bmp` has 512 bytes, `display_text` succeeds for every text, effect and speed and any way of
-- sending a byte: it makes no access outside an array and sends exactly the frames, commands and
-- waits of the specification, in which the text runs through the first row of the panel. BLINK and
-- FADE take their pace from the speed.
pub display_text-frames :
    (write : ℕ → ℕ → Trace) (s : State) (text effect : List ℕ) (speed_ms : ℤ)
    → IsValid s
    → Sends
        (display_text write s text effect speed_ms)
        (effect_trace write text effect (clamp_speed speed_ms))
unfolding display_text effect_trace
display_text-frames write s text effect speed_ms v =
    let sp = clamp_speed speed_ms in
    if_both Sends (same_text effect (codes "SCROLL")) (scroll-Sends write s v text sp) (
      if_both Sends (same_text effect (codes "BLINK"))
        (rw (blink_loop-blinking write sp) (show_start_then write s v text (blinking write sp)))
        (if_both Sends (same_text effect (codes "REVERSE")) (reverse-Sends write s v text sp) (
          if_both Sends (same_text effect (codes "FADE"))
            (rw (fade_loops-fading write (sp / 64 + 1))
              (show_start_then write s v text (fading write (sp / 64 + 1))))
            (s, refl, v))))
