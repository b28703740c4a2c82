-- ===== src/Oled/Laws.antt =====
-- The operations of the paged panels against their specification.
use mathlib.Core.List
use textreaderrpi.Common.{
  if_both, ℕ, zero, suc, ◌+◌, ◌-◌, ◌/◌, ◌≤◌, ◌≡◌, refl, List, [], ◌∷◌, ◌++◌, some, length, take,
  replicate, arith, length-append, append-nil, drop, length-drop, ap, sym, append_assoc,
}
use textreaderrpi.Common.Int.{ℤ}
use textreaderrpi.Common.Text.{codes, same_text}
use textreaderrpi.Machine.{M, Trace, emit, delay, ◌>>◌, ◌>>=◌, pure}
use textreaderrpi.Driver.{clamp_speed}
use textreaderrpi.Driver.Loops.{traces_up}
use textreaderrpi.Driver.Reverse.{reversed_lem}
use textreaderrpi.Bitmap.Spec.{over}
use textreaderrpi.Bitmap.Laws.{build-bitmap, length-bitmap-le}
use textreaderrpi.Oled.Visible.{visible, tile, length-tile, length-visible}
use textreaderrpi.Oled.Fill.Laws.{fill_lem, load_page_lem}
use textreaderrpi.Oled.{
  Panel, State, build_text_bitmap, flush_from, flush, show_at, scroll_from, scroll, show_start,
  reverse, display_text, display_clear, blink_loop, fade_loops, set_contrast,
}
use textreaderrpi.Oled.Spec.{
  columns, frame, shown, scroll_trace, effect_trace, blinking, rising, falling, fading,
}

-- Both static arrays have 1024 bytes.
pub record IsValid (s : State) : Type 0 where
  pub fb_size : length s.s_fb ≡ 1024
  pub bmp_size : length s.bmp ≡ 1024

-- The computation succeeds with just these actions, and the arrays keep their sizes.
abbrev pub Sends : M State → Trace → Type 0
Sends m t = (s : State) × (m ≡ some (s, t)) × IsValid s

build_text_bitmap-columns :
    (text out : List ℕ)
    → length out ≡ 1024
    → build_text_bitmap text out ≡ some (over (columns text) out, length (columns text))
unfolding build_text_bitmap columns
build_text_bitmap-columns text out size = build-bitmap 1018 128 1024 text (omega arith) out size

length-over : (text out : List ℕ) → length out ≡ 1024 → length (over (columns text) out) ≡ 1024
unfolding columns
length-over text out size = omega (
  arith,
  length-append (columns text) (drop (length (columns text)) out),
  length-drop (length (columns text)) out,
  length-bitmap-le 1018 128 1024 text (omega arith),
)

module _ (panel : Panel) where
  flush_from-traces_up :
      (w : List ℕ)
      → length w ≡ 128
      → (n page : ℕ) → page + n ≤ 8
      → flush_from panel n page (tile 8 w) ≡ emit (traces_up n page (λ p. panel.send_page p w))
  unfolding flush_from traces_up
  flush_from-traces_up w full zero page fits = refl
  flush_from-traces_up w full (suc n) page fits = rw (
    load_page_lem w page full (omega arith),
    flush_from-traces_up w full n (suc page) (omega arith),
  )

  module _ (b out : List ℕ) where
    show_at-frame :
        (offset : ℕ) (fb : List ℕ)
        → length fb ≡ 1024
        → show_at panel (over b out) (length b) offset fb
          ≡ some (tile 8 (visible b offset), frame panel b offset)
    unfolding show_at flush frame
    show_at-frame offset fb size = rw (
      fill_lem b out offset fb size,
      flush_from-traces_up (visible b offset) (length-visible b offset) 8 0 (omega arith),
      append-nil,
    )

    scroll_from-shown :
        (sp n k : ℕ) (fb : List ℕ)
        → length fb ≡ 1024
        → (fb' : List ℕ) × (scroll_from panel n k (over b out) (length b) sp fb
            ≡ some (fb', traces_up n k (shown panel b sp)))
          × (length fb' ≡ 1024)
    unfolding scroll_from shown traces_up
    scroll_from-shown sp zero k fb size = (fb, refl, size)
    scroll_from-shown sp (suc n) k fb size =
        let rest =
          scroll_from-shown sp n (suc k) (tile 8 (visible b k))
            (length-tile 8 (visible b k) (length-visible b k)) in
        (
          rest.0,
          rw (show_at-frame k fb size, rest.1)
              (ap (λ t. some (rest.0, t))
                (sym (
                  append_assoc (frame panel b k) (delay sp ∷ [])
                    (traces_up n (suc k) (λ o. frame panel b o ++ delay sp ∷ []))))),
          rest.2,
        )

  module _ (s : State) (v : IsValid s) where
    scroll-Sends :
        (text : List ℕ) (sp : ℕ)
        → Sends (scroll panel text sp s) (scroll_trace panel (columns text) sp)
    unfolding scroll scroll_trace
    scroll-Sends text sp =
        let b = columns text in
        let run = scroll_from-shown b s.bmp sp (length b + 1 - 128) 0 s.s_fb v.fb_size in
        (
          record { s_fb = run.0; bmp = over b s.bmp },
          rw (
            build_text_bitmap-columns text s.bmp v.bmp_size,
            run.1,
            append-nil (traces_up (length b + 1 - 128) 0 (shown panel b sp)),
          ),
          record { fb_size = run.2; bmp_size = length-over text s.bmp v.bmp_size },
        )

    show_start-Sends :
        (text : List ℕ) → Sends (show_start panel text s) (frame panel (columns text) 0)
    unfolding show_start
    show_start-Sends text =
        let b = columns text in
        (
          record { s_fb = tile 8 (visible b 0); bmp = over b s.bmp },
          rw (
            build_text_bitmap-columns text s.bmp v.bmp_size,
            show_at-frame b s.bmp 0 s.s_fb v.fb_size,
            append-nil (frame panel b 0),
          ),
          record {
            fb_size = length-tile 8 (visible b 0) (length-visible b 0);
            bmp_size = length-over text s.bmp v.bmp_size;
          },
        )

    reverse-Sends :
        (text : List ℕ) (sp : ℕ)
        → Sends
            (reverse panel text sp s)
            (scroll_trace panel (columns (List.reverse (take 127 text))) sp)
    unfolding reverse
    reverse-Sends text sp =
        let sent = scroll-Sends (List.reverse (take 127 text)) sp in
        (sent.0, rw (reversed_lem text, sent.1), sent.2)

-- After a first frame, more actions on the bus leave the arrays alone.
then_emit : (m : M State) (t u : Trace) → Sends m t → Sends (m >>= λ s'. emit u >> pure s') (t ++ u)
then_emit m t u sent = (sent.0, rw (sent.1, append-nil u), sent.2)

blink_loop-blinking : (panel : Panel) (sp : ℕ) → blink_loop panel sp ≡ blinking panel sp
unfolding blink_loop blinking
blink_loop-blinking panel sp = refl

fade_loops-fading : (panel : Panel) (ms : ℕ) → fade_loops panel ms ≡ fading panel ms
unfolding fade_loops fading set_contrast traces_up rising falling
fade_loops-fading panel ms = refl

-- From valid arrays `display_text` succeeds for every text, effect and speed: it makes no access
-- outside an array, sends exactly the frames, commands and waits of the specification, and the
-- arrays are valid again. BLINK and FADE take their pace from the speed.
pub display_text-Sends :
    (panel : Panel) (s : State) (text effect : List ℕ) (speed_ms : ℤ)
    → IsValid s
    → Sends
        (display_text panel s text effect speed_ms)
        (effect_trace panel text effect (clamp_speed speed_ms))
unfolding display_text effect_trace
display_text-Sends panel s text effect speed_ms v =
    let sp = clamp_speed speed_ms in
    if_both Sends (same_text effect (codes "SCROLL")) (scroll-Sends panel s v text sp) (
      if_both Sends (same_text effect (codes "BLINK"))
        (rw (blink_loop-blinking panel sp) (
          then_emit (show_start panel text s) (frame panel (columns text) 0) (blinking panel sp)
            (show_start-Sends panel s v text)))
        (if_both Sends (same_text effect (codes "REVERSE")) (reverse-Sends panel s v text sp) (
          if_both Sends (same_text effect (codes "FADE"))
            (rw (fade_loops-fading panel (sp / 32 + 1)) (
              then_emit (show_start panel text s) (frame panel (columns text) 0)
                (fading panel (sp / 32 + 1)) (show_start-Sends panel s v text)))
            (s, refl, v))))

-- From valid arrays `display_clear` succeeds, sends eight blank pages, and the arrays are valid
-- again.
pub display_clear-Sends :
    (panel : Panel) (s : State)
    → IsValid s
    → Sends (display_clear panel s) (traces_up 8 0 (λ page. panel.send_page page (replicate 128 0)))
unfolding display_clear flush
display_clear-Sends panel s v = (
  record s { s_fb = replicate 1024 0 },
  rw (blank, sent, append-nil (traces_up 8 0 (λ page. panel.send_page page (replicate 128 0)))),
  record { fb_size = refl; bmp_size = v.bmp_size },
)
  where
    blank : replicate {A = ℕ} 1024 0 ≡ tile 8 (replicate 128 0)
    blank = unfold tile in refl

    sent :
        flush_from panel 8 0 (tile 8 (replicate 128 0))
        ≡ emit (traces_up 8 0 (λ page. panel.send_page page (replicate 128 0)))
    sent = flush_from-traces_up panel (replicate 128 0) refl 8 0 (omega arith)
