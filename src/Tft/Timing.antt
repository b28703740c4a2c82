-- ===== src/Tft/Timing.antt =====
-- The waiting time of the effects of the colour panels.
use mathlib.Core.List
use textreaderrpi.Common.{
  if_same, ◌-◌, ◌&&◌, ltb, ℕ, suc, ◌+◌, ◌*◌, ◌/◌, ◌≡◌, ◌∙◌, refl, ap, arith, List, [], ◌∷◌, ◌++◌,
  if◌then◌else◌, length, take, min, length-take,
}
use textreaderrpi.Common.Int.{ℤ}
use textreaderrpi.Common.Text.{codes, same_text}
use textreaderrpi.Machine.{M, Trace, emit, delay}
use textreaderrpi.Machine.Trace.{if_total_ms, total_ms, total_ms-append}
use textreaderrpi.Memory.Laws.{length-reverse}
use textreaderrpi.Driver.{clamp_speed}
use textreaderrpi.Driver.Loops.{traces_up, traces_down}
use textreaderrpi.Driver.Timing.{total_ms-traces_up, total_ms-traces_down}
use textreaderrpi.Font.{glyph}
use textreaderrpi.Tft.Draw.{Panel, draw_pixel, draw_columns}
use textreaderrpi.Tft.Draw.Spec.{characters, picture}
use textreaderrpi.Tft.Draw.Laws.{HasRoom}
use textreaderrpi.Tft.Spec.{still, scroll_trace, blink_trace, faded, fade_trace, effect_trace}
use textreaderrpi.Tft.Laws.{display_text-pictures}
use textreaderrpi.Tft.{white, black, display_text}

-- The milliseconds that an effect lasts on a text of `n` characters.
unfoldable pub duration : (n : ℕ) → List ℕ → ℕ → ℕ
duration n effect sp =
    if same_text effect (codes "SCROLL")
    then (6 * n + 1) * sp
    else if same_text effect (codes "BLINK")
    then 12 * sp
    else if same_text effect (codes "REVERSE")
    then (6 * min 127 n + 1) * sp
    else if same_text effect (codes "FADE")
    then 64 * (sp / 32 + 1)
    else 0

module _ (panel : Panel) (fill_rect : (x y w h color : ℕ) → Trace)
    (no_wait : (x y w h color : ℕ) → total_ms (fill_rect x y w h color) ≡ 0) where
  total_ms-draw_columns :
      (x y fg bg col : ℕ) (columns : List ℕ)
      → total_ms (draw_columns panel fill_rect x y fg bg col columns) ≡ 0
  unfolding draw_columns draw_pixel
  total_ms-draw_columns x y fg bg col [] = refl
  total_ms-draw_columns x y fg bg col (column_byte ∷ columns) = omega (
    arith,
    total_ms-append (traces_up 8 0 (draw_pixel panel fill_rect x y fg bg col column_byte))
        (draw_columns panel fill_rect x y fg bg (suc col) columns),
    total_ms-traces_up 0 8 0 (draw_pixel panel fill_rect x y fg bg col column_byte)
        (λ row. no_wait _ _ _ _ _),
    total_ms-draw_columns x y fg bg (suc col) columns,
  )

  total_ms-characters :
      (left : ℕ) (text : List ℕ) (offset fg bg : ℕ)
      → total_ms (characters panel fill_rect left text offset fg bg) ≡ 0
  unfolding characters
  total_ms-characters left [] offset fg bg = refl
  total_ms-characters left (c ∷ text) offset fg bg =
      let drawn = draw_columns panel fill_rect (left - offset) panel.top fg bg 0 (glyph c) in
      let b = ltb offset (left + 5) && ltb left (offset + panel.width) in
      omega (
        arith,
        total_ms-append (if b then drawn else [])
            (characters panel fill_rect (left + 6) text offset fg bg),
        if_total_ms b drawn [] (total_ms-draw_columns (left - offset) panel.top fg bg 0 (glyph c))
            refl,
        if_same {A = ℕ} b 0,
        total_ms-characters (left + 6) text offset fg bg,
      )

  total_ms-picture :
      (text : List ℕ) (offset fg bg : ℕ) → total_ms (picture panel fill_rect text offset fg bg) ≡ 0
  unfolding picture
  total_ms-picture text offset fg bg = omega (
    arith,
    total_ms-append (fill_rect 0 0 panel.width panel.bar bg)
        (characters panel fill_rect 0 text offset fg bg),
    no_wait 0 0 panel.width panel.bar bg,
    total_ms-characters 0 text offset fg bg,
  )

  then_wait :
      (text : List ℕ) (offset fg bg ms : ℕ)
      → total_ms (picture panel fill_rect text offset fg bg ++ delay ms ∷ []) ≡ ms
  then_wait text offset fg bg ms = omega (
    arith,
    total_ms-append (picture panel fill_rect text offset fg bg) (delay ms ∷ []),
    total_ms-picture text offset fg bg,
  )

  total_ms-scroll_trace :
      (text : List ℕ) (sp : ℕ)
      → total_ms (scroll_trace panel fill_rect text sp) ≡ (6 * length text + 1) * sp
  unfolding scroll_trace
  total_ms-scroll_trace text sp =
      total_ms-traces_up sp (6 * length text + 1) 0 _ λ offset. then_wait text offset white black sp

  total_ms-blink_trace :
      (hidden shown : Trace) (text : List ℕ) (sp : ℕ)
      → total_ms hidden ≡ 0
      → total_ms shown ≡ 0
      → total_ms (blink_trace panel fill_rect hidden shown text sp) ≡ 12 * sp
  unfolding blink_trace still
  total_ms-blink_trace hidden shown text sp h s = omega (
    arith,
    total_ms-append (picture panel fill_rect text 0 white black)
        (traces_up 6 0 λ i. delay sp ∷ hidden ++ (delay sp ∷ shown)),
    total_ms-picture text 0 white black,
    total_ms-traces_up (2 * sp) 6 0 (λ i. delay sp ∷ hidden ++ (delay sp ∷ shown))
        (λ i. omega (arith, total_ms-append hidden (delay sp ∷ shown), h, s)),
  )

  total_ms-fade_trace :
      (text : List ℕ) (ms : ℕ) → total_ms (fade_trace panel fill_rect text ms) ≡ 64 * ms
  unfolding fade_trace still faded
  total_ms-fade_trace text ms =
      let at = faded panel fill_rect text ms in
      let pic = picture panel fill_rect text 0 white black in
      let step : (v : ℕ) → total_ms (at v) ≡ ms = λ v. then_wait text 0 _ black ms in
      omega (
        arith,
        total_ms-append pic (traces_up 32 0 at ++ (traces_down 32 at ++ pic)),
        total_ms-append (traces_up 32 0 at) (traces_down 32 at ++ pic),
        total_ms-append (traces_down 32 at) pic,
        total_ms-picture text 0 white black,
        total_ms-traces_up ms 32 0 at step,
        total_ms-traces_down ms 32 at step,
      )

  pub total_ms-effect_trace :
      (hidden shown : Trace) (text effect : List ℕ) (sp : ℕ)
      → total_ms hidden ≡ 0
      → total_ms shown ≡ 0
      → total_ms (effect_trace panel fill_rect hidden shown text effect sp)
        ≡ duration (length text) effect sp
  unfolding effect_trace duration
  total_ms-effect_trace hidden shown text effect sp h s =
      if_total_ms (same_text effect (codes "SCROLL")) _ _ (total_ms-scroll_trace text sp) (
        if_total_ms (same_text effect (codes "BLINK")) _ _
          (total_ms-blink_trace hidden shown text sp h s)
          (if_total_ms (same_text effect (codes "REVERSE")) _ _
            (total_ms-scroll_trace (List.reverse (take 127 text)) sp
              ∙ ap (λ n. (6 * n + 1) * sp) (length-reverse (take 127 text) ∙ length-take 127 text))
            (if_total_ms (same_text effect (codes "FADE")) _ _
              (total_ms-fade_trace text (sp / 32 + 1)) refl)))

  -- On a panel whose coordinates' type has room for it, with bus transfers that do not wait:
  -- `display_text` returns after exactly the waits of `duration`, which is computed from the length of the text, the effect and
  -- the clamped speed alone.
  pub display_text-waits :
      (room : HasRoom panel) (hidden : Trace) (show : List ℕ → M (Unit {0})) (shown : Trace)
      (text effect : List ℕ) (speed_ms : ℤ)
      → show text ≡ emit shown
      → total_ms hidden ≡ 0
      → total_ms shown ≡ 0
      → (t : Trace) × (display_text panel fill_rect (emit hidden) show text effect speed_ms
          ≡ emit t)
        × (total_ms t ≡ duration (length text) effect (clamp_speed speed_ms))
  display_text-waits room hidden show shown text effect speed_ms shows h s = (
    effect_trace panel fill_rect hidden shown text effect (clamp_speed speed_ms),
    display_text-pictures panel fill_rect room hidden show shown text effect speed_ms shows,
    total_ms-effect_trace hidden shown text effect (clamp_speed speed_ms) h s,
  )
