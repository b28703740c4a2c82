-- ===== src/Tests/Panels.antt =====
-- Runs of the paged panels, and their properties at concrete inputs.

use textreaderrpi.Common.{◌≡◌, ◌≤◌, refl, [], ◌∷◌, some, replicate}
use textreaderrpi.Common.Int.{pos}
use textreaderrpi.Common.Text.{codes}
use textreaderrpi.Machine.{Trace, i2c_write}
use textreaderrpi.Machine.Trace.{total_ms}
use textreaderrpi.Driver.{clamp_speed}
use textreaderrpi.Driver.Reverse.{reversed, reversed_lem}
use textreaderrpi.Oled.{State, display_text}
use textreaderrpi.Oled.Spec.{effect_trace}
use textreaderrpi.Oled.Laws.{IsValid, Sends, display_text-Sends}
use textreaderrpi.Oled.Timing.{IsSilent, duration, display_text-busy}
use textreaderrpi.Esp32.Ssd1306 as EspSsd1306

abbrev start : State
start = record { s_fb = replicate 1024 0; bmp = replicate 1024 0 }

start-IsValid : IsValid start
start-IsValid = record { fb_size = refl; bmp_size = refl }

command_bytes : EspSsd1306.ssd1306_cmd 0xAF ≡ i2c_write 0x3C (0x00 ∷ 0xAF ∷ []) ∷ []
unfolding EspSsd1306.ssd1306_cmd
command_bytes = refl

esp-IsSilent : IsSilent EspSsd1306.panel
unfolding EspSsd1306.panel EspSsd1306.ssd1306_cmd EspSsd1306.send_page
esp-IsSilent = record { cmd_silent = λ c. refl; page_silent = λ page bytes. refl }

reversed_lem_example : reversed (codes "abc") ≡ some (codes "cba")
reversed_lem_example = reversed_lem (codes "abc")

display_text-Sends_example :
    Sends
      (display_text EspSsd1306.panel start (codes "Hello") (codes "REVERSE") (pos 0))
      (effect_trace EspSsd1306.panel (codes "Hello") (codes "REVERSE") (clamp_speed (pos 0)))
display_text-Sends_example =
    display_text-Sends EspSsd1306.panel start (codes "Hello") (codes "REVERSE") (pos 0)
      start-IsValid

display_text-busy_example :
    (t : Trace) × Sends
      (display_text EspSsd1306.panel start (codes "Hello") (codes "SCROLL") (pos 9000))
      t
    × (total_ms t ≡ duration (codes "Hello") (codes "SCROLL") (clamp_speed (pos 9000)))
    × (total_ms t ≤ 4485000)
display_text-busy_example =
    display_text-busy EspSsd1306.panel start (codes "Hello") (codes "SCROLL") (pos 9000)
      esp-IsSilent start-IsValid
