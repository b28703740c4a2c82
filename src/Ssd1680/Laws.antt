-- ===== src/Ssd1680/Laws.antt =====
-- The effects of the e-paper panel against their specification.
use mathlib.Core.List
use textreaderrpi.Common.{ℕ, Bool, List, ◌++◌}
use textreaderrpi.Machine.{M, Trace, ◌>>=◌}
use textreaderrpi.Driver.Script.{then-Runs}
use textreaderrpi.Ssd1680.Busy.Laws.{Recovers}
use textreaderrpi.Ssd1680.Spec.{Item, Does, Displays}

module _ (cmd : ℕ → Trace) (send : List ℕ → Trace) (busy : ℕ → Bool) (fuel : ℕ)
    (recovers : Recovers busy fuel) where
  abbrev Sends : {A : Type 0} → M A → List Item → Type 0
  Sends m items = Displays cmd send m items

  abbrev steps :
      {A B : Type 0} (m : M A) (k : A → M B) (is js : List Item)
      → Sends m is
      → ((a : A) → Sends (k a) js)
      → Sends (m >>= k) (is ++ js)
  steps = then-Runs (Does cmd send)
