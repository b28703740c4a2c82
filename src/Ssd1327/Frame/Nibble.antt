-- ===== src/Ssd1327/Frame/Nibble.antt =====
-- The bit operations that replace a nibble, as arithmetic.
use textreaderrpi.Common.{
  ℕ, ◌+◌, ◌*◌, ◌/◌, ◌%◌, ◌==◌, ◌<◌, ◌≡◌, refl, true, Bool, bit_and, bit_or, all_below,
  all_below_lem, ==→≡,
}

low_table : all_below 256 (λ b. bit_and b 0x0F == b % 16) ≡ true
low_table = refl

pub low_lem : (b : ℕ) → b < 256 → bit_and b 0x0F ≡ b % 16
low_lem b h =
    ==→≡ (bit_and b 0x0F) (b % 16) (all_below_lem 256 (λ b. bit_and b 0x0F == b % 16) b low_table h)

high_table : all_below 256 (λ b. bit_and b 0xF0 == b / 16 * 16) ≡ true
high_table = refl

pub high_lem : (b : ℕ) → b < 256 → bit_and b 0xF0 ≡ b / 16 * 16
high_lem b h =
    ==→≡ (bit_and b 0xF0) (b / 16 * 16)
      (all_below_lem 256 (λ b. bit_and b 0xF0 == b / 16 * 16) b high_table h)

abbrev or_right : (h l : ℕ) → Bool
or_right h l = bit_or l (h * 16) % 256 == h % 16 * 16 + l

right_table : all_below 256 (λ h. all_below 16 (λ l. or_right h l)) ≡ true
right_table = refl

pub right_lem : (h l : ℕ) → h < 256 → l < 16 → bit_or l (h * 16) % 256 ≡ h % 16 * 16 + l
right_lem h l hh hl = ==→≡ (bit_or l (h * 16) % 256) (h % 16 * 16 + l) (
    all_below_lem 16 (λ l. or_right h l) l
      (all_below_lem 256 (λ h. all_below 16 (λ l. or_right h l)) h right_table hh) hl)

abbrev or_left : (h l : ℕ) → Bool
or_left h l = bit_or (h * 16) l == h * 16 + l

left_table : all_below 16 (λ h. all_below 16 (λ l. or_left h l)) ≡ true
left_table = refl

pub left_lem : (h l : ℕ) → h < 16 → l < 16 → bit_or (h * 16) l ≡ h * 16 + l
left_lem h l hh hl = ==→≡ (bit_or (h * 16) l) (h * 16 + l) (
    all_below_lem 16 (λ l. or_left h l) l
      (all_below_lem 16 (λ h. all_below 16 (λ l. or_left h l)) h left_table hh) hl)
