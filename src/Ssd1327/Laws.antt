-- ===== src/Ssd1327/Laws.antt =====
-- The effects of the gray panel against their scripts.
use mathlib.Core.List
use textreaderrpi.Common.{
  if_both, append-nil, ℕ, zero, suc, ◌+◌, ◌*◌, ◌/◌, ◌%◌, ◌<◌, ◌≡◌, refl, sym, ap, true, false, Bool,
  List, [], ◌∷◌, ◌++◌, length, take, arith,
}
use textreaderrpi.Common.Int.{ℤ}
use textreaderrpi.Common.Text.{codes, same_text}
use textreaderrpi.Machine.{pure, emit, lift, delay, i2c_write, ◌>>◌, ◌>>=◌}
use textreaderrpi.Memory.{load_range}
use textreaderrpi.Memory.Laws.{load_range-take}
use textreaderrpi.Driver.{clamp_speed}
use textreaderrpi.Driver.Loops.{traces_up, traces_down, for_up-traces_up}
use textreaderrpi.Driver.Reverse.{reversed_lem}
use textreaderrpi.Ssd1327.Frame.Laws.{
  Shows, render_text_to_fb-Shows_start, scrolled-Shows, black-Shows,
}
use textreaderrpi.Ssd1327.Spec.{
  frame, command, wait, row_trace, flush_trace, Does, glowing, moving, blinking, contrast, fading,
  script,
}
use textreaderrpi.Ssd1327.Runs.{Plays, Runs, then-Runs, done-Runs, after-Runs, wait-Runs}
use textreaderrpi.Driver.Script.{Plays-append, traces_up-Plays, traces_down-Plays, emit-Runs}
use textreaderrpi.Ssd1327.{
  address, ssd1327_cmd, ssd1327_flush, display_clear, show, scroll_from, blink, reverse, fade_step,
  fade, show_from, move_from, move, display_text, black,
}
use mathlib.Core.Path.{subst}

ssd1327_flush_lem : (fb : List ℕ) → length fb ≡ 8192 → ssd1327_flush fb ≡ emit (flush_trace fb)
unfolding ssd1327_flush flush_trace row_trace
ssd1327_flush_lem fb size =
    rw
      (for_up-traces_up 128 0 128
        (λ row. lift (load_range fb (row * 64) 64) >>= λ bytes.
          emit (i2c_write address (0x40 ∷ bytes) ∷ []))
        (row_trace fb) (omega arith) sent)
      refl
  where
    sent :
        (row : ℕ)
        → row < 128
        → (lift (load_range fb (row * 64) 64) >>= λ bytes.
            emit (i2c_write address (0x40 ∷ bytes) ∷ []))
          ≡ emit (row_trace fb row)
    sent row lt = rw (load_range-take fb (row * 64) 64 (omega (arith, size))) refl

flush-Runs :
    (fb text : List ℕ) (x_offset brightness : ℕ)
    → Shows fb text x_offset brightness
    → Runs (ssd1327_flush fb >> pure fb) (frame text x_offset brightness ∷ [])
flush-Runs fb text x_offset brightness shows = rw (ssd1327_flush_lem fb shows.size) (
    emit-Runs Does (flush_trace fb) fb (frame text x_offset brightness ∷ [])
      (flush_trace fb, [], (fb, shows, refl), sym (append-nil (flush_trace fb)), refl))

display_clear-Runs : Runs display_clear (frame [] 0 0 ∷ [])
unfolding display_clear
display_clear-Runs = flush-Runs black [] 0 0 (black-Shows 0)

show-Runs :
    (text : List ℕ) (brightness : ℕ)
    → brightness < 256
    → Runs (show text brightness) (frame text 0 (brightness % 16) ∷ [])
unfolding show
show-Runs text brightness is_byte =
    let drawn = render_text_to_fb-Shows_start brightness is_byte text in
    rw (drawn.1) (
      after-Runs _ (frame text 0 (brightness % 16) ∷ [])
        (flush-Runs drawn.0 text 0 (brightness % 16) drawn.2))

show_from-Runs :
    (text : List ℕ) (offset : ℕ) → Runs (show_from text offset) (frame text offset 15 ∷ [])
unfolding show_from
show_from-Runs text offset =
    let drawn = scrolled-Shows 15 (omega arith) text offset in
    rw (drawn.1)
      (after-Runs _ (frame text offset 15 ∷ []) (flush-Runs drawn.0 text offset 15 drawn.2))

scroll_from-Runs :
    (n k : ℕ) (text : List ℕ) (sp : ℕ) (s_fb : List ℕ)
    → Runs (scroll_from n k text sp s_fb) (glowing n k text sp)
unfolding scroll_from glowing
scroll_from-Runs zero k text sp s_fb = done-Runs s_fb
scroll_from-Runs (suc n) k text sp s_fb =
    then-Runs (show text (k % 256)) _ (frame text 0 (k % 16) ∷ [])
      (wait sp ∷ glowing n (suc k) text sp)
      (subst (λ b. Runs (show text (k % 256)) (frame text 0 b ∷ [])) (omega arith)
        (show-Runs text (k % 256) (omega arith)))
      λ fb.
        wait-Runs sp (scroll_from n (suc k) text sp fb) (glowing n (suc k) text sp)
          (scroll_from-Runs n (suc k) text sp fb)

move_from-Runs :
    (n k : ℕ) (text : List ℕ) (sp : ℕ) (s_fb : List ℕ)
    → Runs (move_from n k text sp s_fb) (moving n k text sp)
unfolding move_from moving
move_from-Runs zero k text sp s_fb = done-Runs s_fb
move_from-Runs (suc n) k text sp s_fb =
    then-Runs (show_from text k) _ (frame text k 15 ∷ []) (wait sp ∷ moving n (suc k) text sp)
      (show_from-Runs text k)
      λ fb.
        wait-Runs sp (move_from n (suc k) text sp fb) (moving n (suc k) text sp)
          (move_from-Runs n (suc k) text sp fb)

move-Runs :
    (r : Bool) (text : List ℕ) (sp : ℕ) (s_fb : List ℕ)
    → Runs (move r text sp s_fb) (moving (length text * 6) 0 text sp)
unfolding move
move-Runs true text sp s_fb =
    let drawn = render_text_to_fb-Shows_start 15 (omega arith) text in
    rw (drawn.1) (
      after-Runs _ (moving (length text * 6) 0 text sp)
        (move_from-Runs (length text * 6) 0 text sp drawn.0))
move-Runs false text sp s_fb =
    after-Runs _ (moving (length text * 6) 0 text sp)
      (move_from-Runs (length text * 6) 0 text sp s_fb)

blink-Runs : (text : List ℕ) (sp : ℕ) → Runs (blink text sp) (frame text 0 15 ∷ blinking sp)
unfolding blink blinking
blink-Runs text sp =
    then-Runs (show text 15) _ (frame text 0 15 ∷ [])
      (traces_up 6 0 λ i. wait sp ∷ command 0xAE ∷ wait sp ∷ command 0xAF ∷ [])
      (show-Runs text 15 (omega arith))
      λ fb. emit-Runs Does _ fb _ (
        traces_up-Plays Does 6 0 (λ i. wait sp ∷ command 0xAE ∷ wait sp ∷ command 0xAF ∷ [])
          (λ i. delay sp ∷ ssd1327_cmd 0xAE ++ (delay sp ∷ ssd1327_cmd 0xAF))
          (λ i lt. dark_and_light))
  where
    dark_and_light :
        Plays
          (wait sp ∷ command 0xAE ∷ wait sp ∷ command 0xAF ∷ [])
          (delay sp ∷ ssd1327_cmd 0xAE ++ (delay sp ∷ ssd1327_cmd 0xAF))
    dark_and_light = (
      _,
      _,
      refl,
      refl,
      (_, _, refl, refl, (_, _, refl, refl, (ssd1327_cmd 0xAF, [], refl, refl, refl))),
    )

reverse-Runs :
    (text : List ℕ) (sp : ℕ)
    → Runs (reverse text sp) (frame (List.reverse (take 127 text)) 0 15 ∷ wait sp ∷ [])
unfolding reverse
reverse-Runs text sp = rw (reversed_lem text) (
    after-Runs _ (frame (List.reverse (take 127 text)) 0 15 ∷ wait sp ∷ []) (
      then-Runs (show (List.reverse (take 127 text)) 15) _
        (frame (List.reverse (take 127 text)) 0 15 ∷ []) (wait sp ∷ [])
        (show-Runs (List.reverse (take 127 text)) 15 (omega arith))
        λ fb. wait-Runs sp (pure fb) [] (done-Runs fb)))

fade_step-Plays : (ms v : ℕ) → v < 16 → Plays (contrast ms v) (fade_step ms v)
unfolding contrast fade_step
fade_step-Plays ms v lt = (
  ssd1327_cmd 0x81,
  ssd1327_cmd (v * 16 % 256) ++ delay ms ∷ [],
  refl,
  refl,
  (
    ssd1327_cmd (v * 16 % 256),
    delay ms ∷ [],
    ap ssd1327_cmd (omega arith),
    refl,
    (delay ms ∷ [], [], refl, refl, refl),
  ),
)

fade-Runs : (text : List ℕ) (sp : ℕ) → Runs (fade text sp) (frame text 0 15 ∷ fading (sp / 32 + 1))
unfolding fade fading
fade-Runs text sp =
    let ms = sp / 32 + 1 in
    then-Runs (show text 15) _ (frame text 0 15 ∷ [])
      (traces_up 16 0 (contrast ms)
        ++ (traces_down 16 (contrast ms) ++ command 0x81 ∷ command 0x80 ∷ []))
      (show-Runs text 15 (omega arith))
      λ fb. emit-Runs Does _ fb _ (
        Plays-append Does (traces_up 16 0 (contrast ms)) _ (traces_up 16 0 (fade_step ms)) _
          (traces_up-Plays Does 16 0 (contrast ms) (fade_step ms) (λ v lt. fade_step-Plays ms v lt))
          (Plays-append Does (traces_down 16 (contrast ms)) (command 0x81 ∷ command 0x80 ∷ [])
            (traces_down 16 (fade_step ms)) (ssd1327_cmd 0x81 ++ ssd1327_cmd 0x80)
            (traces_down-Plays Does 16 (contrast ms) (fade_step ms)
              (λ v lt. fade_step-Plays ms v lt))
            (
              ssd1327_cmd 0x81,
              ssd1327_cmd 0x80,
              refl,
              refl,
              (ssd1327_cmd 0x80, [], refl, refl, refl),
            )))

-- For every content of the frame buffer, text, effect and speed, on both boards, `display_text`
-- succeeds, and its actions are exactly those of the effect's script: the frames that show the
-- text, pixel by pixel, the commands and the waits, in order. In SCROLL the text stays where it is
-- and only its brightness changes, REVERSE is one still frame, and BLINK and FADE take their pace
-- from the speed.
pub display_text-Runs :
    (renders_first : Bool) (s_fb text effect : List ℕ) (speed_ms : ℤ)
    → Runs
        (display_text renders_first s_fb text effect speed_ms)
        (script text effect (clamp_speed speed_ms))
unfolding display_text script
display_text-Runs r s_fb text effect speed_ms =
    let sp = clamp_speed speed_ms in
    let n : length text * 6 ≡ 6 * length text = omega arith in
    if_both Runs (same_text effect (codes "SCROLL"))
      (subst (λ k. Runs (scroll_from (length text * 6) 0 text sp s_fb) (glowing k 0 text sp)) n
        (scroll_from-Runs (length text * 6) 0 text sp s_fb))
      (if_both Runs (same_text effect (codes "BLINK")) (blink-Runs text sp) (
        if_both Runs (same_text effect (codes "REVERSE")) (reverse-Runs text sp) (
          if_both Runs (same_text effect (codes "FADE")) (fade-Runs text sp) (
            subst (λ k. Runs (move r text sp s_fb) (moving k 0 text sp)) n
              (move-Runs r text sp s_fb)))))
