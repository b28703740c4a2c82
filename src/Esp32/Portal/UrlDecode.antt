-- ===== src/Esp32/Portal/UrlDecode.antt =====
-- `url_decode` of firmware/esp32/main/captive_portal.c.
pub mod Encode
pub mod Laws
use textreaderrpi.Common.{
  ℕ, zero, suc, ◌+◌, ◌-◌, ◌*◌, ◌%◌, List, [], ◌∷◌, Option, none, some, ◌==◌, ◌||◌, if◌then◌else◌,
}
use textreaderrpi.Esp32.Portal.Bytes.{hex_digit, is_space}

digit_or_zero : Option ℕ → ℕ
digit_or_zero none = 0
digit_or_zero (some y) = y

-- `(char)strtol(hex, NULL, 16)` of the characters `a` and `b`, neither of them NUL, given what they
-- are worth as digits: blanks and a sign are skipped in front, and what follows the last digit is
-- ignored.
unfoldable pub strtol_value : ℕ → Option ℕ → Option ℕ → ℕ
unfolding digit_or_zero
strtol_value a (some x) (some y) = 16 * x + y
strtol_value a (some x) none = x
strtol_value a none y =
    if is_space a || a == b'+'
    then digit_or_zero y
    else if a == b'-'
    then (256 - digit_or_zero y) % 256
    else 0

unfoldable pub strtol_pair : ℕ → ℕ → ℕ
strtol_pair a b = strtol_value a (hex_digit a) (hex_digit b)

-- `*src == '+'` stands for a blank.
unfoldable pub plain : ℕ → ℕ
plain c = if c == b'+' then 32 else c

-- The bytes that are stored before the final NUL, where `room` is `dst_max - 1 - i`. The source is the
-- text before its NUL, so `src[1] && src[2]` asks for two more bytes.
unfoldable pub decode : ℕ → List ℕ → List ℕ
decode zero src = []
decode (suc room) [] = []
decode (suc room) (c ∷ []) = plain c ∷ []
decode (suc room) (c ∷ a ∷ []) = plain c ∷ decode room (a ∷ [])
decode (suc room) (c ∷ a ∷ b ∷ src) =
    let escaped = strtol_pair a b ∷ decode room src in
    let copied = plain c ∷ decode room (a ∷ b ∷ src) in if c == b'%' then escaped else copied

-- `url_decode(src, dst, dst_max)`.
unfoldable pub url_decode : List ℕ → ℕ → List ℕ
url_decode src dst_max = decode (dst_max - 1) src
