-- ===== src/Oled/Timing.antt =====
-- How long `display_text` of a paged panel keeps its caller waiting.
use textreaderrpi.Oled.Laws.{IsValid, Sends, display_text-Sends}
use native.Mathlib.Nat.{mul-le-mul, le_trans}
use mathlib.Core.List
use textreaderrpi.Bitmap.Laws.{length-bitmap-le}
use textreaderrpi.Common.{
  zero, suc, ap₂, true, false, ℕ, ◌+◌, ◌*◌, ◌≡◌, List, arith, length, ◌∷◌, ◌++◌, ◌∙◌, [], ◌-◌, Bool,
  if◌then◌else◌, take, ◌≤◌, ◌/◌, refl,
}
use textreaderrpi.Common.Text.{codes, same_text}
use textreaderrpi.Common.Int.{ℤ}
use textreaderrpi.Machine.{delay, Trace}
use textreaderrpi.Machine.Trace.{if_total_ms, total_ms, total_ms-append}
use textreaderrpi.Driver.Timing.{total_ms-traces_up, clamp_speed-le}
use textreaderrpi.Oled.{Panel, clamp_speed, State, display_text}
use textreaderrpi.Oled.Spec.{
  frame, shown, scroll_trace, effect_trace, columns, blinking, rising, falling, fading,
}

-- Transfers take no time of their own.
pub record IsSilent (panel : Panel) : Type 0 where
  pub cmd_silent : (c : ℕ) → total_ms (panel.cmd c) ≡ 0
  pub page_silent : (page : ℕ) (bytes : List ℕ) → total_ms (panel.send_page page bytes) ≡ 0

module _ (panel : Panel) (q : IsSilent panel) where
  total_ms-frame : (b : List ℕ) (offset : ℕ) → total_ms (frame panel b offset) ≡ 0
  unfolding frame
  total_ms-frame b offset = total_ms-traces_up 0 8 0 _ (λ page. q.page_silent page _)

  total_ms-scroll_trace :
      (b : List ℕ) (sp : ℕ) → total_ms (scroll_trace panel b sp) ≡ (length b + 1 - 128) * sp
  unfolding scroll_trace shown
  total_ms-scroll_trace b sp =
      total_ms-traces_up sp (length b + 1 - 128) 0 _
        (λ o. omega (arith, total_ms-append (frame panel b o) (delay sp ∷ []), total_ms-frame b o))

  total_ms-blinking : (sp : ℕ) → total_ms (blinking panel sp) ≡ 12 * sp
  unfolding blinking
  total_ms-blinking sp =
      total_ms-traces_up (2 * sp) 6 0 _ (λ i. omega (
        arith,
        total_ms-append (panel.cmd 0xAE) (delay sp ∷ panel.cmd 0xAF),
        q.cmd_silent 0xAE,
        q.cmd_silent 0xAF,
      ))
      ∙ omega arith

  total_ms-contrast : (v : ℕ) → total_ms (panel.cmd 0x81 ++ panel.cmd v) ≡ 0
  total_ms-contrast v =
      omega
        (arith, total_ms-append (panel.cmd 0x81) (panel.cmd v), q.cmd_silent 0x81, q.cmd_silent v)

  total_ms-level : (v ms : ℕ) → total_ms ((panel.cmd 0x81 ++ panel.cmd v) ++ delay ms ∷ []) ≡ ms
  total_ms-level v ms =
      omega (
        arith,
        total_ms-append (panel.cmd 0x81 ++ panel.cmd v) (delay ms ∷ []),
        total_ms-contrast v,
      )

  total_ms-rising : (n v ms : ℕ) → total_ms (rising panel n v ms) ≡ n * ms
  unfolding rising
  total_ms-rising zero v ms = omega arith
  total_ms-rising (suc n) v ms =
      total_ms-append ((panel.cmd 0x81 ++ panel.cmd v) ++ delay ms ∷ []) (rising panel n (v + 8) ms)
      ∙ ap₂ ◌+◌ (total_ms-level v ms) (total_ms-rising n (v + 8) ms)
      ∙ omega arith

  total_ms-falling : (n v ms : ℕ) → total_ms (falling panel n v ms) ≡ n * ms
  unfolding falling
  total_ms-falling zero v ms = omega arith
  total_ms-falling (suc n) v ms =
      total_ms-append ((panel.cmd 0x81 ++ panel.cmd v) ++ delay ms ∷ [])
        (falling panel n (v - 8) ms)
      ∙ ap₂ ◌+◌ (total_ms-level v ms) (total_ms-falling n (v - 8) ms)
      ∙ omega arith

  total_ms-fading : (ms : ℕ) → total_ms (fading panel ms) ≡ 64 * ms
  unfolding fading
  total_ms-fading ms = omega (
    arith,
    total_ms-append (rising panel 32 0 ms)
        (falling panel 32 255 ms ++ (panel.cmd 0x81 ++ panel.cmd 0xCF)),
    total_ms-append (falling panel 32 255 ms) (panel.cmd 0x81 ++ panel.cmd 0xCF),
    total_ms-rising 32 0 ms,
    total_ms-falling 32 255 ms,
    total_ms-contrast 0xCF,
  )

-- The waiting time of each effect at a clamped speed.
abbrev pub duration : List ℕ → List ℕ → ℕ → ℕ
duration text effect sp =
    if same_text effect (codes "SCROLL")
    then (length (columns text) + 1 - 128) * sp
    else if same_text effect (codes "BLINK")
    then 12 * sp
    else if same_text effect (codes "REVERSE")
    then (length (columns (List.reverse (take 127 text))) + 1 - 128) * sp
    else if same_text effect (codes "FADE")
    then 64 * (sp / 32 + 1)
    else 0

total_ms-effect_trace :
    (panel : Panel)
    → IsSilent panel
    → (text effect : List ℕ) (sp : ℕ)
    → total_ms (effect_trace panel text effect sp) ≡ duration text effect sp
unfolding effect_trace
total_ms-effect_trace panel q text effect sp =
    if_total_ms (same_text effect (codes "SCROLL")) _ _
      (total_ms-scroll_trace panel q (columns text) sp)
      (if_total_ms (same_text effect (codes "BLINK")) _ _
        (then_ms (blinking panel sp) (12 * sp) (total_ms-blinking panel q sp))
        (if_total_ms (same_text effect (codes "REVERSE")) _ _
          (total_ms-scroll_trace panel q (columns (List.reverse (take 127 text))) sp)
          (if_total_ms (same_text effect (codes "FADE")) _ _
            (then_ms (fading panel (sp / 32 + 1)) (64 * (sp / 32 + 1))
              (total_ms-fading panel q (sp / 32 + 1)))
            refl)))
  where
    then_ms :
        (u : Trace) (n : ℕ) → total_ms u ≡ n → total_ms (frame panel (columns text) 0 ++ u) ≡ n
    then_ms u n h = omega (
      arith,
      total_ms-append (frame panel (columns text) 0) u,
      total_ms-frame panel q (columns text) 0,
    )

length-columns-le : (text : List ℕ) → length (columns text) ≤ 1024
unfolding columns
length-columns-le text = length-bitmap-le 1018 128 1024 text (omega arith)

duration-le :
    (text effect : List ℕ) (speed_ms : ℤ) → duration text effect (clamp_speed speed_ms) ≤ 4485000
duration-le text effect speed_ms = pick (same_text effect (codes "SCROLL")) (scrolling text) (
    pick (same_text effect (codes "BLINK")) (omega (arith, clamp_speed-le speed_ms)) (
      pick (same_text effect (codes "REVERSE")) (scrolling (List.reverse (take 127 text))) (
        pick (same_text effect (codes "FADE")) (omega (arith, clamp_speed-le speed_ms))
          (omega arith))))
  where
    pick : (c : Bool) {m n : ℕ} → m ≤ 4485000 → n ≤ 4485000 → (if c then m else n) ≤ 4485000
    pick true p r = p
    pick false p r = r

    scrolling : (t : List ℕ) → (length (columns t) + 1 - 128) * clamp_speed speed_ms ≤ 4485000
    scrolling t =
        le_trans {m = 897 * 5000}
          (mul-le-mul {n₂ = 897} (omega (arith, length-columns-le t)) (clamp_speed-le speed_ms))
          (omega arith)

-- For a panel whose commands and pages do not wait, and valid arrays, `display_text` succeeds,
-- its waits add up to `duration`, which is computed from the text, the effect and the clamped speed
-- alone, and that is at most 4485 seconds whatever text, effect and speed the message asks for.
pub display_text-busy :
    (panel : Panel) (s : State) (text effect : List ℕ) (speed_ms : ℤ)
    → IsSilent panel
    → IsValid s
    → (t : Trace) × Sends (display_text panel s text effect speed_ms) t
      × (total_ms t ≡ duration text effect (clamp_speed speed_ms))
      × (total_ms t ≤ 4485000)
display_text-busy panel s text effect speed_ms q v =
    let e = total_ms-effect_trace panel q text effect (clamp_speed speed_ms) in
    (
      effect_trace panel text effect (clamp_speed speed_ms),
      display_text-Sends panel s text effect speed_ms v,
      e,
      omega (arith, e, duration-le text effect speed_ms),
    )
