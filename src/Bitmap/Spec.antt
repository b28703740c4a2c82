-- ===== src/Bitmap/Spec.antt =====
-- What a drawn text looks like, with no array and no index.
use textreaderrpi.Common.{ℕ, ◌+◌, ◌-◌, ◌/◌, List, ◌++◌, min, length, take, drop, replicate}
use textreaderrpi.Font.{text_columns}

-- A character is begun at column 6 * k exactly when 6 * k < limit.
abbrev pub chars_below : ℕ → ℕ
chars_below limit = (limit + 5) / 6

-- The characters that fit, and then the padding as far as there is room.
unfoldable pub bitmap : ℕ → ℕ → ℕ → List ℕ → List ℕ
bitmap limit trailing max_bytes text =
    let cols = text_columns (take (chars_below limit) text) in
    cols ++ replicate (min trailing (max_bytes - length cols)) 0

-- The array after `xs` has been put at the front of `post`.
abbrev pub over : List ℕ → List ℕ → List ℕ
over xs post = xs ++ drop (length xs) post
