-- ===== src/Esp32/Portal/Bytes.antt =====
-- Character tests and the C string functions that the portal uses.
use textreaderrpi.Common.{
  ℕ, ◌+◌, ◌-◌, List, [], ◌∷◌, Bool, true, false, ◌&&◌, ◌||◌, Option, none, some, leb, ◌==◌,
  if◌then◌else◌,
}

-- The bytes before the first `stop`, or all of them: `strchr` with `strlen` in its place.
abbrev pub until : ℕ → List ℕ → List ℕ
until stop [] = []
until stop (c ∷ s) = if c == stop then [] else c ∷ until stop s

abbrev pub starts_with : List ℕ → List ℕ → Bool
starts_with [] s = true
starts_with (k ∷ key) [] = false
starts_with (k ∷ key) (c ∷ s) = (k == c) && starts_with key s

-- `strstr`: the text from the first occurrence on.
abbrev pub strstr : List ℕ → List ℕ → Option (List ℕ)
strstr [] key = if starts_with key [] then some [] else none
strstr (c ∷ s) key = if starts_with key (c ∷ s) then some (c ∷ s) else strstr s key

-- The value of a hexadecimal digit of either case.
unfoldable pub hex_digit : ℕ → Option ℕ
hex_digit c =
    if leb b'0' c && leb c b'9'
    then some (c - b'0')
    else if leb b'a' c && leb c b'f'
    then some (c - b'a' + 10)
    else if leb b'A' c && leb c b'F'
    then some (c - b'A' + 10)
    else none

-- `isspace`.
unfoldable pub is_space : ℕ → Bool
is_space c = c == 32 || (leb 9 c && leb c 13)
