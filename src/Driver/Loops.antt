-- ===== src/Driver/Loops.antt =====
-- Counted loops over actions, with the rules that give the trace of a loop from that of its body.
use textreaderrpi.Common.{refl, ℕ, zero, suc, [], ◌++◌, ◌+◌, ◌<◌, ◌≤◌, ◌≡◌, arith, List}
use textreaderrpi.Machine.{M, Trace, pure, emit, ◌>>◌}

-- `for (i = k; n rounds; i++) body(i);`
unfoldable pub for_up : ℕ → ℕ → (ℕ → M (Unit {0})) → M (Unit {0})
for_up zero k body = pure tt
for_up (suc n) k body = body k >> for_up n (suc k) body

-- `for (i = n - 1; i >= 0; i--) body(i);`
unfoldable pub for_down : ℕ → (ℕ → M (Unit {0})) → M (Unit {0})
for_down zero body = pure tt
for_down (suc n) body = body n >> for_down n body

-- The same loops where nothing can fault, over the list of what their rounds do.
unfoldable pub traces_up {ℓ} : {A : Type ℓ} → ℕ → ℕ → (ℕ → List A) → List A
traces_up zero k f = []
traces_up (suc n) k f = f k ++ traces_up n (suc k) f

unfoldable pub traces_down {ℓ} : {A : Type ℓ} → ℕ → (ℕ → List A) → List A
traces_down zero f = []
traces_down (suc n) f = f n ++ traces_down n f

pub for_up-traces_up :
    (n k hi : ℕ) (body : ℕ → M (Unit {0})) (f : ℕ → Trace)
    → k + n ≤ hi
    → ((i : ℕ) → i < hi → body i ≡ emit (f i))
    → for_up n k body ≡ emit (traces_up n k f)
unfolding for_up traces_up
for_up-traces_up zero k hi body f fits h = refl
for_up-traces_up (suc n) k hi body f fits h =
    rw (h k (omega arith), for_up-traces_up n (suc k) hi body f (omega arith) h)

pub for_down-traces_down :
    (n : ℕ) (body : ℕ → M (Unit {0})) (f : ℕ → Trace)
    → ((i : ℕ) → i < n → body i ≡ emit (f i))
    → for_down n body ≡ emit (traces_down n f)
unfolding for_down traces_down
for_down-traces_down zero body f h = refl
for_down-traces_down (suc n) body f h =
    rw (h n (omega arith), for_down-traces_down n body f (λ i lt. h i (omega arith)))
