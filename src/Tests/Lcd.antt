-- ===== src/Tests/Lcd.antt =====
-- Runs of the PCD8544 programs, and their property at a concrete input.
use textreaderrpi.Common.{◌≡◌, refl, [], ◌∷◌, replicate}
use textreaderrpi.Common.Int.{negsuc}
use textreaderrpi.Common.Text.{codes}
use textreaderrpi.Machine.{spi_write, gpio_put}
use textreaderrpi.Driver.{clamp_speed}
use textreaderrpi.Pcd8544.{State, display_text}
use textreaderrpi.Pcd8544.Spec.{effect_trace}
use textreaderrpi.Pcd8544.Laws.{IsValid, Sends, display_text-frames}
use textreaderrpi.Pico.Pcd8544.{pcd8544_write}

abbrev start : State
start = record { s_fb = replicate 504 0; bmp = replicate 512 0 }

start-IsValid : IsValid start
start-IsValid = record { bmp_size = refl }

data_byte :
    pcd8544_write 0x7E 1
    ≡ gpio_put 20 1 ∷ gpio_put 17 0 ∷ spi_write (0x7E ∷ []) ∷ gpio_put 17 1 ∷ []
unfolding pcd8544_write
data_byte = refl

display_text-frames_example :
    Sends
      (display_text pcd8544_write start (codes "Hi") (codes "FADE") (negsuc 4))
      (effect_trace pcd8544_write (codes "Hi") (codes "FADE") (clamp_speed (negsuc 4)))
display_text-frames_example =
    display_text-frames pcd8544_write start (codes "Hi") (codes "FADE") (negsuc 4) start-IsValid
