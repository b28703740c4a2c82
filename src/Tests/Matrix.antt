-- ===== src/Tests/Matrix.antt =====
-- Runs of the MAX7219 programs, and their properties at concrete inputs.
use textreaderrpi.Common.{
  ℕ, ◌≡◌, refl, List, [], ◌∷◌, some, none, length, replicate, ◌≤◌, ◌*◌, arith,
}
use textreaderrpi.Common.Int.{pos}
use textreaderrpi.Common.Text.{codes}
use textreaderrpi.Machine.{Trace, spi_write, gpio_put}
use textreaderrpi.Machine.Trace.{total_ms}
use textreaderrpi.Bitmap
use textreaderrpi.Bitmap.Spec.{bitmap, over}
use textreaderrpi.Bitmap.Laws.{build-bitmap}
use textreaderrpi.Driver.{clamp_speed, positive_or}
use textreaderrpi.Max7219
use textreaderrpi.Max7219.{State, reg_shutdown, reg_intensity, display_text, register_pairs}
use textreaderrpi.Max7219.Spec.{columns, effect_trace, max_fade_steps}
use textreaderrpi.Max7219.Laws.{drawn, display_text-effect_trace}
use textreaderrpi.Max7219.Registers.Latch.{latched}
use textreaderrpi.Max7219.Registers.{display_text-registers}
use textreaderrpi.Max7219.Timing.{duration, display_text-duration, display_text-bounded}
use textreaderrpi.Max7219.Overflow.{display_text-overflow}
use textreaderrpi.Esp32.Max7219 as EspMatrix
use textreaderrpi.Pico.Max7219 as PicoMatrix

-- The driver's variables at the start, for one device and for four.
abbrev start : State
start = record { s_bitmap = replicate 264 0; s_bitmap_len = 0 }

abbrev start_four : State
start_four = record { s_bitmap = replicate 288 0; s_bitmap_len = 0 }

-- A register write on the chain of four, and on the Pico's single device.
four_pairs :
    EspMatrix.spi_write_reg 0x0A 4 ≡ spi_write (10 ∷ 4 ∷ 10 ∷ 4 ∷ 10 ∷ 4 ∷ 10 ∷ 4 ∷ []) ∷ []
unfolding EspMatrix.spi_write_reg EspMatrix.transmit Max7219.write_reg register_pairs
four_pairs = refl

one_pair :
    PicoMatrix.max7219_send 1 7 0
    ≡ some (tt, gpio_put 17 0 ∷ spi_write (1 ∷ 7 ∷ []) ∷ gpio_put 17 1 ∷ [])
unfolding PicoMatrix.max7219_send PicoMatrix.transmit
one_pair = refl

past_the_chain : PicoMatrix.max7219_send 1 7 1 ≡ none
unfolding PicoMatrix.max7219_send
past_the_chain = refl

small_fade : positive_or 8 (pos 3) ≤ max_fade_steps
unfolding positive_or
small_fade = omega arith

build-bitmap_example :
    Bitmap.build 4 2 10 (codes "Hi") (replicate 10 7)
    ≡ some (over (bitmap 4 2 10 (codes "Hi")) (replicate 10 7), length (bitmap 4 2 10 (codes "Hi")))
build-bitmap_example = build-bitmap 4 2 10 (codes "Hi") (omega arith) (replicate 10 7) refl

display_text-effect_trace_example :
    display_text 1 PicoMatrix.transmit start (codes "A") (codes "FADE") (pos 50) (pos 0) (pos 3)
    ≡ some (
      drawn (columns 1 (codes "A")) start.s_bitmap,
      effect_trace 1 PicoMatrix.transmit
          (columns 1 (codes "A"))
          (codes "FADE")
          (clamp_speed (pos 50))
          (positive_or 500 (pos 0))
          (positive_or 8 (pos 3)),
    )
display_text-effect_trace_example =
    display_text-effect_trace 1 PicoMatrix.transmit start (codes "A") (codes "FADE") (pos 50)
      (pos 0) (pos 3) (omega arith) refl (λ e. small_fade)

esp_wired :
    (reg d v : ℕ) (buf : List ℕ)
    → latched reg d v (EspMatrix.transmit buf) ≡ latched reg d v (spi_write buf ∷ [])
unfolding EspMatrix.transmit
esp_wired reg d v buf = refl

esp_silent : (buf : List ℕ) → total_ms (EspMatrix.transmit buf) ≡ 0
unfolding EspMatrix.transmit
esp_silent buf = refl

display_text-registers_example :
    (t : Trace) × (display_text 4 EspMatrix.transmit start_four
        (codes "A")
        (codes "FADE")
        (pos 50)
        (pos 0)
        (pos 3)
      ≡ some (drawn (columns 4 (codes "A")) start_four.s_bitmap, t))
    × (latched reg_shutdown 2 1 t ≡ 1)
    × (latched reg_intensity 2 4 t ≡ 4)
display_text-registers_example =
    display_text-registers 4 EspMatrix.transmit esp_wired 2 (omega arith) start_four (codes "A")
      (codes "FADE") (pos 50) (pos 0) (pos 3) refl (λ e. small_fade)

display_text-duration_example :
    (t : Trace) × (display_text 4 EspMatrix.transmit start_four
        (codes "A")
        (codes "FADE")
        (pos 50)
        (pos 0)
        (pos 3)
      ≡ some (drawn (columns 4 (codes "A")) start_four.s_bitmap, t))
    × (total_ms t
        ≡ duration
            (length (columns 4 (codes "A")))
            (4 * 8)
            (codes "FADE")
            (clamp_speed (pos 50))
            (positive_or 500 (pos 0))
            (positive_or 8 (pos 3)))
display_text-duration_example =
    display_text-duration 4 EspMatrix.transmit esp_silent start_four (codes "A") (codes "FADE")
      (pos 50) (pos 0) (pos 3) (omega arith) refl (λ e. small_fade)

display_text-overflow_example :
    display_text 4 EspMatrix.transmit start_four
      (codes "A")
      (codes "FADE")
      (pos 50)
      (pos 500)
      (pos 200000000)
    ≡ none
display_text-overflow_example =
    display_text-overflow 4 EspMatrix.transmit start_four (codes "A") (pos 50) (pos 500) 200000000
      (omega arith) refl (omega arith)

display_text-bounded_example :
    (t : Trace) × (display_text 4 EspMatrix.transmit start_four
        (codes "A")
        (codes "FADE")
        (pos 50)
        (pos 0)
        (pos 3)
      ≡ some (drawn (columns 4 (codes "A")) start_four.s_bitmap, t))
    × (total_ms t ≤ 1285000)
display_text-bounded_example =
    display_text-bounded 4 EspMatrix.transmit esp_silent start_four (codes "A") (codes "FADE")
      (pos 50) (pos 0) (pos 3) (omega arith) refl (λ e. small_fade) refl
