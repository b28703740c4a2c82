-- ===== src/Ssd1327/Runs.antt =====
-- Operations that send a script of the SSD1327, and their composition.
use textreaderrpi.Common.{ℕ, refl, List, [], ◌∷◌, ◌++◌}
use textreaderrpi.Machine.{M, Trace, pure, emit, after, delay, ◌>>◌, ◌>>=◌}
use textreaderrpi.Driver.Script
use textreaderrpi.Ssd1327.Spec.{Item, wait, Does}

abbrev pub Plays : List Item → Trace → Type 0
Plays items t = Script.Plays Does items t

-- What an operation does: it succeeds, and its actions are those of the script.
abbrev pub Runs : {A : Type 0} → M A → List Item → Type 0
Runs m items = Script.Runs Does m items

pub then-Runs :
    {A B : Type 0} (m : M A) (k : A → M B) (is js : List Item)
    → Runs m is
    → ((a : A) → Runs (k a) js)
    → Runs (m >>= k) (is ++ js)
then-Runs = Script.then-Runs Does

pub done-Runs : {A : Type 0} (a : A) → Runs (pure a) []
done-Runs = Script.done-Runs Does

pub after-Runs : {A : Type 0} (m : M A) (items : List Item) → Runs m items → Runs (after [] m) items
after-Runs = Script.after-Runs Does

pub wait-Runs :
    {A : Type 0} (ms : ℕ) (k : M A) (items : List Item)
    → Runs k items
    → Runs (emit (delay ms ∷ []) >> k) (wait ms ∷ items)
wait-Runs ms k items p =
    then-Runs (emit (delay ms ∷ [])) (λ u. k) (wait ms ∷ []) items
      (Script.one-Runs Does _ tt (delay ms ∷ []) (wait ms) refl refl) (λ u. p)
