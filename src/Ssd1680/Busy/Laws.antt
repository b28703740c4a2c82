-- ===== src/Ssd1680/Busy/Laws.antt =====
-- When the loop over the BUSY pin ends.
use textreaderrpi.Common.{
  ℕ, zero, suc, ◌+◌, ◌<◌, ◌≤◌, ◌≡◌, ◌∙◌, refl, ap, true, false, Bool, none, some, [], ◌∷◌, arith,
  replicate, Bool-cases, inl, inr,
}
use textreaderrpi.Machine.{delay}
use textreaderrpi.Ssd1680.Busy.{wait_busy}

module _ (busy : ℕ → Bool) where
  -- If the pin reads high at the readings `k` to `k + n - 1` and low at reading `k + n`, the loop ends
  -- on every fuel above `n`: it has waited 10 ms after each high reading, and made `n + 1`
  -- readings.
  pub wait_busy-replicate :
      (n fuel k : ℕ)
      → n < fuel
      → ((i : ℕ) → i < n → busy (k + i) ≡ true)
      → busy (k + n) ≡ false
      → wait_busy busy fuel k ≡ some (k + n + 1, replicate n (delay 10))
  unfolding wait_busy
  wait_busy-replicate n zero k lt high low = absurd (omega arith)
  wait_busy-replicate zero (suc fuel) k lt high low =
      rw (first_low) (ap (λ m. some (m, [])) (omega arith))
    where
      first_low : busy k ≡ false
      first_low = ap busy (omega arith) ∙ low
  wait_busy-replicate (suc n) (suc fuel) k lt high low =
      rw (first_high, wait_busy-replicate n fuel (suc k) (omega arith) later_high later_low)
        (ap (λ m. some (m, delay 10 ∷ replicate n (delay 10))) (omega arith))
    where
      first_high : busy k ≡ true
      first_high = ap busy (omega arith) ∙ high 0 (omega arith)

      later_high : (i : ℕ) → i < n → busy (suc k + i) ≡ true
      later_high i h = ap busy (omega arith) ∙ high (suc i) (omega arith)

      later_low : busy (suc k + n) ≡ false
      later_low = ap busy (omega arith) ∙ low

  -- A pin that reads high from reading `k` on keeps the loop going on every fuel: there is no time
  -- limit.
  pub wait_busy-none :
      (fuel k : ℕ) → ((i : ℕ) → k ≤ i → busy i ≡ true) → wait_busy busy fuel k ≡ none
  unfolding wait_busy
  wait_busy-none zero k high = refl
  wait_busy-none (suc fuel) k high =
      rw (high k (omega arith), wait_busy-none fuel (suc k) (λ i h. high i (omega arith))) refl

  -- Within every `fuel` readings the pin reads low.
  abbrev pub Recovers : ℕ → Type 0
  Recovers fuel = (k : ℕ) → (n : ℕ) × (n < fuel) × (busy (k + n) ≡ false)

  -- What a run of the loop does: it ends, and only waits.
  abbrev pub Ends : ℕ → ℕ → Type 0
  Ends fuel k = (m : ℕ) × (n : ℕ) × (wait_busy busy fuel k ≡ some (m, replicate n (delay 10)))

  wait_busy-low : (n fuel k : ℕ) → n < fuel → busy (k + n) ≡ false → Ends fuel k
  unfolding wait_busy
  wait_busy-low n zero k lt low = absurd (omega arith)
  wait_busy-low zero (suc fuel) k lt low = (suc k, 0, rw (first_low) refl)
    where
      first_low : busy k ≡ false
      first_low = ap busy (omega arith) ∙ low
  wait_busy-low (suc n) (suc fuel) k lt low = elim (Bool-cases (busy k)) [
    | inl high ↦
        (let rest = wait_busy-low n fuel (suc k) (omega arith) later_low in
          (rest.0, suc rest.1, rw (high, rest.2) refl))
    | inr now ↦ (suc k, 0, rw now refl)
  ]
    where
      later_low : busy (suc k + n) ≡ false
      later_low = ap busy (omega arith) ∙ low

  pub wait_busy-Ends : (fuel k : ℕ) → Recovers fuel → Ends fuel k
  wait_busy-Ends fuel k recovers = let r = recovers k in wait_busy-low r.0 fuel k r.1 r.2
