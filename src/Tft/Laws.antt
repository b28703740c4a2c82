-- ===== src/Tft/Laws.antt =====
-- The effects of the colour panels against their specification.
use mathlib.Core.List
use textreaderrpi.Common.{
  ◌==◌, all_below, all_below_lem, ==→≡, ℕ, ◌+◌, ◌*◌, ◌/◌, ◌<◌, ◌≡◌, ◌∙◌, refl, ap, arith, true,
  List, [], ◌∷◌, ◌++◌, length, take,
}
use textreaderrpi.Common.Int.{ℤ}
use textreaderrpi.Common.Text.{codes, same_text}
use textreaderrpi.Machine.{if_emit, M, Trace, emit, delay}
use textreaderrpi.Driver.{clamp_speed}
use textreaderrpi.Driver.Loops.{traces_up, for_up-traces_up, for_down-traces_down}
use textreaderrpi.Driver.Reverse.{reversed_lem}
use textreaderrpi.Tft.Draw.{Panel}
use textreaderrpi.Tft.Draw.Spec.{picture}
use textreaderrpi.Tft.Draw.Laws.{HasRoom, render_text-picture}
use textreaderrpi.Tft.Spec.{still, scroll_trace, blink_trace, faded, fade_trace, effect_trace}
use textreaderrpi.Tft.{
  white, black, gray, render_text, scroll, blink, reverse, fade_step, fade, display_text,
}

gray_table : all_below 32 (λ v. gray v == 2048 * v + 32 * (2 * v) + v) ≡ true
unfolding gray
gray_table = refl

gray_lem : (v : ℕ) → v < 32 → gray v ≡ 2048 * v + 32 * (2 * v) + v
gray_lem v h =
    ==→≡ (gray v) (2048 * v + 32 * (2 * v) + v)
      (all_below_lem 32 (λ i. gray i == 2048 * i + 32 * (2 * i) + i) v gray_table h)

module _ (panel : Panel) (fill_rect : (x y w h color : ℕ) → Trace) (room : HasRoom panel) where
  render_text_lem :
      (text : List ℕ) (offset fg bg : ℕ)
      → render_text panel fill_rect text offset fg bg
        ≡ emit (picture panel fill_rect text offset fg bg)
  unfolding render_text
  render_text_lem text offset fg bg =
      rw (render_text-picture panel fill_rect room offset fg bg text) refl

  scroll_lem :
      (text : List ℕ) (sp : ℕ)
      → scroll panel fill_rect text sp ≡ emit (scroll_trace panel fill_rect text sp)
  unfolding scroll scroll_trace
  scroll_lem text sp =
      for_up-traces_up (length text * 6 + 1) 0 (length text * 6 + 1) _
        (λ offset. picture panel fill_rect text offset white black ++ delay sp ∷ []) (omega arith)
        (λ offset lt. rw (render_text_lem text offset white black) refl)
      ∙ ap
          (λ n. emit (
            traces_up (n + 1) 0
              (λ offset. picture panel fill_rect text offset white black ++ delay sp ∷ [])))
          (omega arith)

  blink_lem :
      (hidden shown : Trace) (text : List ℕ) (sp : ℕ)
      → blink panel fill_rect (emit hidden) (emit shown) text sp
        ≡ emit (blink_trace panel fill_rect hidden shown text sp)
  unfolding blink blink_trace still
  blink_lem hidden shown text sp =
      rw
        (
          render_text_lem text 0 white black,
          for_up-traces_up 6 0 6 _ (λ i. delay sp ∷ hidden ++ (delay sp ∷ shown)) (omega arith)
              (λ i lt. refl),
        )
        refl

  reverse_lem :
      (text : List ℕ) (sp : ℕ)
      → reverse panel fill_rect text sp
        ≡ emit (scroll_trace panel fill_rect (List.reverse (take 127 text)) sp)
  unfolding reverse
  reverse_lem text sp = rw (reversed_lem text, scroll_lem (List.reverse (take 127 text)) sp) refl

  fade_step_lem :
      (text : List ℕ) (ms v : ℕ)
      → v < 32
      → fade_step panel fill_rect text ms v ≡ emit (faded panel fill_rect text ms v)
  unfolding fade_step faded
  fade_step_lem text ms v h =
      rw (gray_lem v h, render_text_lem text 0 (2048 * v + 32 * (2 * v) + v) black) refl

  fade_lem :
      (text : List ℕ) (sp : ℕ)
      → fade panel fill_rect text sp ≡ emit (fade_trace panel fill_rect text (sp / 32 + 1))
  unfolding fade fade_trace still
  fade_lem text sp =
      rw
        (
          render_text_lem text 0 white black,
          for_up-traces_up 32 0 32 (fade_step panel fill_rect text (sp / 32 + 1))
              (faded panel fill_rect text (sp / 32 + 1)) (omega arith)
              (fade_step_lem text (sp / 32 + 1)),
          for_down-traces_down 32 (fade_step panel fill_rect text (sp / 32 + 1))
              (faded panel fill_rect text (sp / 32 + 1)) (fade_step_lem text (sp / 32 + 1)),
        )
        refl

  -- On a panel whose coordinates' type has room for it, if showing the text again sends `shown`:
  -- `display_text` succeeds for every text, effect and speed, and sends exactly the pictures, waits
  -- and commands of the effect, and nothing for an unknown effect. BLINK and FADE take their pace from the
  -- speed, and FADE has 32 steps each way.
  pub display_text-pictures :
      (hidden : Trace) (show : List ℕ → M (Unit {0})) (shown : Trace) (text effect : List ℕ)
      (speed_ms : ℤ)
      → show text ≡ emit shown
      → display_text panel fill_rect (emit hidden) show text effect speed_ms
        ≡ emit (effect_trace panel fill_rect hidden shown text effect (clamp_speed speed_ms))
  unfolding display_text effect_trace
  display_text-pictures hidden show shown text effect speed_ms shows =
      let sp = clamp_speed speed_ms in
      if_emit (same_text effect (codes "SCROLL")) (scroll_lem text sp) (
        if_emit (same_text effect (codes "BLINK")) (rw shows (blink_lem hidden shown text sp)) (
          if_emit (same_text effect (codes "REVERSE")) (reverse_lem text sp)
            (if_emit (same_text effect (codes "FADE")) (fade_lem text sp) refl)))
