-- ===== src/Pico/Max7219.antt =====
-- firmware/pico/src/driver/max7219.c: the MAX7219 program over the Pico SDK, with the chip select
-- driven by hand.
use textreaderrpi.Common.{ℕ, ◌+◌, ◌*◌, List, [], ◌∷◌, replicate}
use textreaderrpi.Common.Int.{ℤ}
use textreaderrpi.Memory.{store}
use textreaderrpi.Machine.{M, Trace, Setup, spi_write, gpio_put, setup, lift, emit, ◌>>=◌}
use textreaderrpi.Max7219
use textreaderrpi.Max7219.{State}

-- NUM_DEVICES of firmware/pico/config.h.
abbrev pub num_devices : ℕ
num_devices = 1

abbrev pub pin_mosi : ℕ
pin_mosi = 19

abbrev pub pin_clk : ℕ
pin_clk = 18

abbrev pub pin_cs : ℕ
pin_cs = 17

-- `spi_write_blocking` between the two `gpio_put` of the chip select.
unfoldable pub transmit : List ℕ → Trace
transmit buf = gpio_put pin_cs 0 ∷ spi_write buf ∷ gpio_put pin_cs 1 ∷ []

-- The buffer has one pair for each device; a `device_index` past the chain is a write outside it.
unfoldable pub max7219_send : ℕ → ℕ → ℕ → M (Unit {0})
max7219_send reg value device_index = do
  buf ← lift (store (replicate (num_devices * 2) 0) (device_index * 2) reg)
  buf' ← lift (store buf (device_index * 2 + 1) value)
  emit (transmit buf')

unfoldable pub max7219_send_all : ℕ → ℕ → Trace
max7219_send_all = Max7219.write_reg num_devices transmit

unfoldable pub display_init : Trace
display_init =
    setup (Setup.spi_init 10000000)
    ∷ setup (Setup.gpio_spi_function pin_mosi)
    ∷ setup (Setup.gpio_spi_function pin_clk)
    ∷ setup (Setup.gpio_init pin_cs)
    ∷ setup (Setup.gpio_output pin_cs)
    ∷ gpio_put pin_cs 1
    ∷ Max7219.init_registers num_devices transmit

unfoldable pub display_clear : Trace
display_clear = Max7219.display_clear num_devices transmit

unfoldable pub render_columns : State → ℕ → M (Unit {0})
render_columns = Max7219.render_columns num_devices transmit

unfoldable pub build_text_bitmap : State → List ℕ → M State
build_text_bitmap = Max7219.set_text num_devices

unfoldable pub display_text : State → List ℕ → List ℕ → ℤ → ℤ → ℤ → M State
display_text = Max7219.display_text num_devices transmit
