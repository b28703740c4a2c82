-- ===== src/Tests/Gray.antt =====
-- Runs of the programs for the gray panel, and their properties at concrete inputs.
use textreaderrpi.Common.{ℕ, ◌≡◌, some, List, [], arith, false}
use textreaderrpi.Common.Int.{negsuc}
use textreaderrpi.Common.Text.{codes}
use textreaderrpi.Driver.{clamp_speed}
use textreaderrpi.Ssd1327.Frame.{render_text_to_fb}
use textreaderrpi.Ssd1327.Frame.Laws.{Shows, render_text_to_fb-Shows_start}
use textreaderrpi.Ssd1327.{display_text}
use textreaderrpi.Ssd1327.Spec.{script}
use textreaderrpi.Ssd1327.Runs.{Runs}
use textreaderrpi.Ssd1327.Laws.{display_text-Runs}

render_text_to_fb-Shows_start_example :
    (fb : List ℕ) × (render_text_to_fb (codes "Hi") 0x1F ≡ some fb) × Shows fb (codes "Hi") 0 15
render_text_to_fb-Shows_start_example =
    render_text_to_fb-Shows_start 0x1F (omega arith) (codes "Hi")

display_text-Runs_example :
    Runs
      (display_text false [] (codes "Hi") (codes "SCROLL") (negsuc 4))
      (script (codes "Hi") (codes "SCROLL") (clamp_speed (negsuc 4)))
display_text-Runs_example = display_text-Runs false [] (codes "Hi") (codes "SCROLL") (negsuc 4)
