-- ===== src/Ssd1680.antt =====
-- The driver of the e-paper panel SSD1680: firmware/esp32/main/driver/ssd1680.c and
-- firmware/pico/src/driver/ssd1680.c are one program over `cmd` and `data`, which send a command
-- and data, and over the readings of the BUSY pin. What the pin reads is the world's:
-- `busy k` is its level at the reading number `k`. The macro EPAPER_PARTIAL_REFRESH is a Boolean.
pub mod Frame
unfoldable pub use Frame.{set_pixel, render_text_to_fb}
pub mod Busy
unfoldable pub use Busy.{wait_busy}
pub mod Spec
pub mod Laws
use textreaderrpi.Common.{
  ℕ, zero, suc, ◌+◌, ◌*◌, ◌/◌, Bool, List, [], ◌∷◌, ◌++◌, Option, if◌then◌else◌, replicate, length,
}
use textreaderrpi.Common.Int.{ℤ}
use textreaderrpi.Common.Text.{codes, same_text}
use textreaderrpi.Machine.{M, Trace, pure, emit, lift, delay, ◌>>◌, ◌>>=◌}
use textreaderrpi.Driver.{clamp_speed}
use textreaderrpi.Driver.Reverse.{reversed}

-- The frame buffer, and the number of readings of the BUSY pin so far.
pub record State : Type 0 where
  pub s_fb : List ℕ
  pub readings : ℕ

abbrev pub white : List ℕ
white = replicate 3904 0xFF

module _ (cmd : ℕ → Trace) (send : List ℕ → Trace) (busy : ℕ → Bool) (fuel : ℕ) where
  abbrev data8 : ℕ → Trace
  data8 v = send (v ∷ [])

  unfoldable pub full_refresh : State → M State
  full_refresh s = do
    emit (cmd 0x22 ++ data8 0xF7 ++ cmd 0x20)
    readings ← wait_busy busy fuel s.readings
    pure (record s { readings = readings })

  unfoldable pub partial_refresh : State → M State
  partial_refresh s = do
    emit (cmd 0x22 ++ data8 0xF4 ++ cmd 0x20)
    readings ← wait_busy busy fuel s.readings
    pure (record s { readings = readings })

  unfoldable pub write_ram : State → M (Unit {0})
  write_ram s =
      emit (cmd 0x4E ++ data8 0 ++ cmd 0x4F ++ data8 0 ++ data8 0 ++ cmd 0x24 ++ send s.s_fb)

  -- `memset(s_fb, 0xFF, sizeof(s_fb)); write_ram(); full_refresh();`
  unfoldable pub display_clear : State → M State
  display_clear s = do
    write_ram (record s { s_fb = white })
    full_refresh (record s { s_fb = white })

  -- `render_text_to_fb(text, x_offset); write_ram(); full_refresh();`
  unfoldable pub show : List ℕ → ℕ → State → M State
  show text x_offset s = do
    fb ← lift (render_text_to_fb text x_offset)
    write_ram (record s { s_fb = fb })
    full_refresh (record s { s_fb = fb })

  unfoldable pub show_partial : List ℕ → ℕ → State → M State
  show_partial text x_offset s = do
    fb ← lift (render_text_to_fb text x_offset)
    write_ram (record s { s_fb = fb })
    partial_refresh (record s { s_fb = fb })

  unfoldable pub blink : List ℕ → ℕ → State → M State
  blink text sp s = do
    s1 ← show text 0 s
    emit (delay sp ∷ [])
    s2 ← display_clear s1
    emit (delay sp ∷ [])
    show text 0 s2

  unfoldable pub reverse : List ℕ → State → M State
  reverse text s = do rev ← lift (reversed text); show rev 0 s

  unfoldable pub fade : List ℕ → ℕ → State → M State
  fade text sp s = do s1 ← display_clear s; emit (delay sp ∷ []); show text 0 s1

  -- `for (; n rounds; offset += 8)`
  unfoldable pub scroll_from :
      (epaper_partial_refresh : Bool) (n offset : ℕ) → List ℕ → ℕ → State → M State
  scroll_from p zero offset text sp s = pure s
  scroll_from p (suc n) offset text sp s = do
    s' ← (if p then show_partial text offset s else show text offset s)
    emit (delay sp ∷ [])
    scroll_from p n (offset + 8) text sp s'

  -- `offset <= text_px` holds in `text_px / 8 + 1` rounds.
  unfoldable pub scroll : Bool → List ℕ → ℕ → State → M State
  scroll p text sp s = scroll_from p (length text * 6 / 8 + 1) 0 text sp s

  unfoldable pub display_text : Bool → State → List ℕ → List ℕ → ℤ → M State
  display_text p s text effect speed_ms =
      let sp = clamp_speed speed_ms in
      if same_text effect (codes "BLINK")
      then blink text sp s
      else if same_text effect (codes "REVERSE")
      then reverse text s
      else if same_text effect (codes "FADE")
      then fade text sp s
      else if same_text effect (codes "SCROLL")
      then scroll p text sp s
      else pure s

  -- `wait_busy()`, with the commands before it.
  unfoldable pub then_wait : Trace → State → M State
  then_wait t s = do
    emit t
    readings ← wait_busy busy fuel s.readings
    pure (record s { readings = readings })

  -- `display_init` after the reset of the controller.
  unfoldable pub initialize : State → M State
  initialize s = do
    s1 ← then_wait [] s
    s2 ← then_wait (cmd 0x12) s1
    s3 ←
        then_wait
          (cmd 0x01
            ++ data8 0x79
            ++ data8 0x00
            ++ data8 0x00
            ++ cmd 0x11
            ++ data8 0x03
            ++ cmd 0x44
            ++ data8 0
            ++ data8 0x0F
            ++ cmd 0x45
            ++ data8 0
            ++ data8 0
            ++ data8 0x79
            ++ data8 0x00
            ++ cmd 0x3C
            ++ data8 0x05
            ++ cmd 0x18
            ++ data8 0x80
            ++ cmd 0x22
            ++ data8 0xB1
            ++ cmd 0x20)
          s2
    display_clear s3
