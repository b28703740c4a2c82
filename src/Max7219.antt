-- ===== src/Max7219.antt =====
-- The MAX7219 driver: firmware/esp32/main/driver/max7219.c and firmware/pico/src/driver/max7219.c are
-- the same program over two bus calls. `num_devices` is NUM_DEVICES and `transmit` sends a buffer
-- to the chain.
mod Rows
unfoldable pub use Rows.{row_buffer, reg_row_base}
pub mod Spec
pub mod Laws
pub mod Registers
pub mod Timing
pub mod Overflow
use textreaderrpi.Common.{
  ℕ, zero, suc, ◌+◌, ◌-◌, ◌*◌, ◌/◌, ◌%◌, List, [], ◌∷◌, ◌++◌, Option, some, Bool, ltb, leb,
  if◌then◌else◌, none,
}
use textreaderrpi.Common.Int.{ℤ, int_max}
use textreaderrpi.Common.Text.{codes, same_text}
use textreaderrpi.Machine.{M, Trace, pure, emit, lift, delay, ◌>>◌, ◌>>=◌, after}
use textreaderrpi.Driver.{clamp_speed, positive_or}
use textreaderrpi.Driver.Loops.{for_up, for_down, traces_up}
use textreaderrpi.Bitmap

abbrev pub reg_decode_mode : ℕ
reg_decode_mode = 0x09

abbrev pub reg_intensity : ℕ
reg_intensity = 0x0A

abbrev pub reg_scan_limit : ℕ
reg_scan_limit = 0x0B

abbrev pub reg_shutdown : ℕ
reg_shutdown = 0x0C

abbrev pub reg_display_test : ℕ
reg_display_test = 0x0F

-- `s_bitmap` and `s_bitmap_len`.
pub record State : Type 0 where
  pub s_bitmap : List ℕ
  pub s_bitmap_len : ℕ

-- Signed multiplication, which is undefined past INT_MAX; both factors are non-negative here.
unfoldable pub mul_int : ℕ → ℕ → M ℕ
mul_int a b = if leb (a * b) int_max then pure (a * b) else none

-- The buffer of `n` pairs of a register and a value.
unfoldable pub register_pairs : ℕ → ℕ → ℕ → List ℕ
register_pairs zero reg val = []
register_pairs (suc n) reg val = reg ∷ val ∷ register_pairs n reg val

module _ (num_devices : ℕ) where
  abbrev pub max_bitmap_len : ℕ
  max_bitmap_len = 256 + num_devices * 8

  abbrev pub display_w : ℕ
  display_w = num_devices * 8

  -- `build_text_bitmap`; the result is stored in `s_bitmap_len`.
  unfoldable pub set_text : State → List ℕ → M State
  set_text s text = do
    (bitmap, len) ← lift (
        Bitmap.build (max_bitmap_len - (num_devices * 8 + 1)) (num_devices * 8) max_bitmap_len text
          s.s_bitmap)
    pure (record { s_bitmap = bitmap; s_bitmap_len = len })

module _ (num_devices : ℕ) (transmit : List ℕ → Trace) where
  unfoldable pub write_reg : ℕ → ℕ → Trace
  write_reg reg val = transmit (register_pairs num_devices reg val)

  unfoldable pub init_registers : Trace
  init_registers =
      write_reg reg_display_test 0x00
      ++ write_reg reg_decode_mode 0x00
      ++ write_reg reg_scan_limit 0x07
      ++ write_reg reg_intensity 0x04
      ++ write_reg reg_shutdown 0x01

  unfoldable pub display_clear : Trace
  display_clear = traces_up 8 0 (λ row. write_reg (reg_row_base + row) 0x00)

  unfoldable pub render_columns : State → ℕ → M (Unit {0})
  render_columns s offset = for_up 8 0 (λ row.
      lift (row_buffer s.s_bitmap s.s_bitmap_len num_devices offset row num_devices 0) >>= λ buf.
      emit (transmit buf))

  -- `offset <= s_bitmap_len - display_w` holds in this many rounds.
  unfoldable pub scroll : State → ℕ → M (Unit {0})
  scroll s speed_ms =
      for_up (s.s_bitmap_len + 1 - display_w num_devices) 0
        (λ offset. render_columns s offset >> emit (delay speed_ms ∷ []))

  unfoldable pub blink : State → ℕ → M (Unit {0})
  blink s blink_period_ms = do
    render_columns s 0
    for_up 6 0 λ i. (do
      emit (delay blink_period_ms ∷ [])
      emit (write_reg reg_shutdown 0x00)
      emit (delay blink_period_ms ∷ [])
      emit (write_reg reg_shutdown 0x01)
      render_columns s 0)

  unfoldable pub reverse : State → ℕ → M (Unit {0})
  reverse s speed_ms =
      let rev_offset =
        if ltb (display_w num_devices) s.s_bitmap_len
        then s.s_bitmap_len - display_w num_devices
        else 0 in
      for_down (suc rev_offset) (λ offset. render_columns s offset >> emit (delay speed_ms ∷ []))

  -- The body of both FADE loops.
  unfoldable pub fade_step : ℕ → ℕ → ℕ → ℕ → M (Unit {0})
  fade_step speed_ms fade_steps div step = do
    scaled ← mul_int step 15
    emit (write_reg reg_intensity (scaled / div % 256))
    emit (delay (speed_ms / fade_steps) ∷ [])

  unfoldable pub fade : State → ℕ → ℕ → M (Unit {0})
  fade s speed_ms fade_steps =
      let div = if ltb 1 fade_steps then fade_steps - 1 else 1 in
      do
        render_columns s 0
        for_up fade_steps 0 (fade_step speed_ms fade_steps div)
        for_down fade_steps (fade_step speed_ms fade_steps div)
        emit (write_reg reg_intensity 0x04)

  -- The chain of `strcmp` tests, after `s_bitmap_len = build_text_bitmap(text)`, which is the first
  -- statement of every branch.
  unfoldable pub run_effect : State → List ℕ → ℕ → ℕ → ℕ → M (Unit {0})
  run_effect s effect speed_ms blink_period_ms fade_steps =
      if same_text effect (codes "SCROLL")
      then scroll s speed_ms
      else if same_text effect (codes "BLINK")
      then blink s blink_period_ms
      else if same_text effect (codes "REVERSE")
      then reverse s speed_ms
      else if same_text effect (codes "FADE")
      then fade s speed_ms fade_steps
      else (render_columns s 0 >> emit (delay 2000 ∷ []))

  unfoldable pub display_text : State → List ℕ → List ℕ → ℤ → ℤ → ℤ → M State
  display_text s text effect speed_ms blink_period_ms fade_steps = do
    s' ← set_text num_devices s text
    run_effect s' effect (clamp_speed speed_ms) (positive_or 500 blink_period_ms)
        (positive_or 8 fade_steps)
    pure s'
