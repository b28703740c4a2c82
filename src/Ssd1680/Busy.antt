-- ===== src/Ssd1680/Busy.antt =====
-- `ssd1680_wait_busy`: the loop until the BUSY pin reads low, in firmware/esp32/main/driver/ssd1680.c
-- and firmware/pico/src/driver/ssd1680.c.
pub mod Laws
use textreaderrpi.Common.{ℕ, zero, suc, Bool, none, [], ◌∷◌, if◌then◌else◌}
use textreaderrpi.Machine.{M, pure, emit, delay, ◌>>◌}

module _ (busy : ℕ → Bool) where
  -- `while (gpio_get_level(SPI_BUSY_PIN)) vTaskDelay(pdMS_TO_TICKS(10));` on fuel, from reading number
  -- `k` on. The result is the number of readings made; `none` is a loop that has not ended.
  unfoldable pub wait_busy : (fuel k : ℕ) → M ℕ
  wait_busy zero k = none
  wait_busy (suc fuel) k =
      if busy k then (emit (delay 10 ∷ []) >> wait_busy fuel (suc k)) else pure (suc k)
