-- ===== src/Esp32/Portal/UrlDecode/Encode.antt =====
-- The form encoding (application/x-www-form-urlencoded) that a browser applies to a field's value.
use textreaderrpi.Common.{
  ℕ, ◌+◌, ◌/◌, ◌%◌, List, [], ◌∷◌, ◌++◌, Bool, ◌&&◌, ◌||◌, ltb, leb, ◌==◌, if◌then◌else◌,
}

-- Letters, digits and `*`, `-`, `.`, `_` stand for themselves.
unfoldable pub is_unreserved : ℕ → Bool
is_unreserved c =
    (leb b'0' c && leb c b'9')
    || (leb b'a' c && leb c b'z')
    || (leb b'A' c && leb c b'Z')
    || c == b'*'
    || c == b'-'
    || c == b'.'
    || c == b'_'

unfoldable pub hex_char : ℕ → ℕ
hex_char x = if ltb x 10 then b'0' + x else b'7' + x

unfoldable pub encode_byte : ℕ → List ℕ
encode_byte c =
    if is_unreserved c
    then c ∷ []
    else if c == 32
    then b'+' ∷ []
    else b'%' ∷ hex_char (c / 16) ∷ hex_char (c % 16) ∷ []

unfoldable pub encode : List ℕ → List ℕ
encode [] = []
encode (c ∷ s) = encode_byte c ++ encode s
