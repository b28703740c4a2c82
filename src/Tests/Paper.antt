-- ===== src/Tests/Paper.antt =====
-- Runs of the e-paper programs, and their properties at concrete inputs.
use textreaderrpi.Common.{ℕ, ◌+◌, ◌<◌, ◌≡◌, refl, none, some, Bool, true, List, [], ◌∷◌, arith, ltb}
use textreaderrpi.Common.Text.{codes}
use textreaderrpi.Machine.{delay}
use textreaderrpi.Ssd1680.Frame.{render_text_to_fb}
use textreaderrpi.Ssd1680.Frame.Laws.{Shows, render_text_to_fb-Shows}
use textreaderrpi.Ssd1680.Busy.{wait_busy}
use textreaderrpi.Ssd1680.Busy.Laws.{wait_busy-replicate, wait_busy-none}
use textreaderrpi.Ssd1680.{State}

render_text_to_fb-Shows_example :
    (fb : List ℕ) × (render_text_to_fb (codes "Hi") 3 ≡ some fb) × Shows fb (codes "Hi") 3
render_text_to_fb-Shows_example = render_text_to_fb-Shows (codes "Hi") 3

-- A pin that reads high twice.
abbrev two_busy : ℕ → Bool
two_busy k = ltb k 2

high_twice : (i : ℕ) → i < 2 → two_busy (0 + i) ≡ true
high_twice i h = ground arith

wait_busy-replicate_example : wait_busy two_busy 5 0 ≡ some (3, delay 10 ∷ delay 10 ∷ [])
wait_busy-replicate_example = wait_busy-replicate two_busy 2 5 0 (omega arith) high_twice refl

wait_busy-none_example : wait_busy (λ k. true) 100 0 ≡ none
wait_busy-none_example = wait_busy-none (λ k. true) 100 0 (λ i h. refl)

abbrev start : State
start = record { s_fb = []; readings = 0 }
