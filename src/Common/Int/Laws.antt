-- ===== src/Common/Int/Laws.antt =====
-- The arithmetic of a position that starts left of the origin.
use native.Mathlib.Decide.{dec_lt}
use textreaderrpi.Common.{
  sym, lt→not_leb, ℕ, zero, suc, ◌+◌, ◌-◌, ◌<◌, ◌≤◌, ◌≡◌, refl, ap, ◌∙◌, arith, leb, lt→ltb,
  le→not_ltb,
}
use textreaderrpi.Common.Int.{pos, negsuc, negated, plus, at_least, clip, minus}

pub minus_neg : (a b : ℕ) → a < b → minus a b ≡ negsuc (b - suc a)
unfolding minus
minus_neg a b h = rw (lt→ltb a b h) refl

pub minus_pos : (a b : ℕ) → b ≤ a → minus a b ≡ pos (a - b)
unfolding minus
minus_pos a b h = rw (le→not_ltb a b h) refl

pub negated-minus : (n : ℕ) → negated n ≡ minus 0 n
unfolding negated
negated-minus zero = sym (minus_pos 0 0 (omega arith))
negated-minus (suc n) = ap negsuc (omega arith) ∙ sym (minus_neg 0 (suc n) (omega arith))

pub plus-minus : (a b n : ℕ) → plus (minus a b) n ≡ minus (a + n) b
unfolding plus
plus-minus a b n = elim (dec_lt a b) [
  | yes neg ↦ rw (minus_neg a b neg) (elim (dec_lt (b - suc a) n) [
    | yes up ↦
        rw (lt→ltb (b - suc a) n up, minus_pos (a + n) b (omega arith)) (ap pos (omega arith))
    | no down ↦
        rw (le→not_ltb (b - suc a) n (omega arith), minus_neg (a + n) b (omega arith))
          (ap negsuc (omega arith))
  ])
  | no above ↦
      rw (minus_pos a b (omega arith), minus_pos (a + n) b (omega arith)) (ap pos (omega arith))
]

pub at_least-minus : (a b n : ℕ) → at_least (minus a b) n ≡ leb (b + n) a
unfolding at_least
at_least-minus a b n = elim (dec_lt a b) [
  | yes neg ↦ rw (minus_neg a b neg) (sym (lt→not_leb (b + n) a (omega arith)))
  | no above ↦ rw (minus_pos a b (omega arith)) (ground arith)
]

pub clip-minus : (a b : ℕ) → clip (minus a b) ≡ a - b
unfolding clip
clip-minus a b = elim (dec_lt a b) [
  | yes neg ↦ rw (minus_neg a b neg) (omega arith)
  | no above ↦ rw (minus_pos a b (omega arith)) refl
]
