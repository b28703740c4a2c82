-- ===== src/Esp32/Portal/UrlDecode/Laws.antt =====
-- `url_decode` against the form encoding, and the room that it takes.
use textreaderrpi.Common.{
  ◌-◌, ◌==◌, [], ◌∷◌, some, ◌++◌, ℕ, zero, suc, ◌≤◌, ◌<◌, ◌≡◌, List, length, take, ◌/◌, ◌≢◌, arith,
  ◌%◌, refl, ap, true, Bool-cases, ◌∙◌, sym, inl, inr,
}
use textreaderrpi.Esp32.Portal.Bytes.{hex_digit}
use textreaderrpi.Esp32.Portal.UrlDecode.{strtol_pair, plain, decode, strtol_value, url_decode}
use textreaderrpi.Esp32.Portal.UrlDecode.Encode.{is_unreserved, hex_char, encode_byte, encode}

hex_digit-hex_char : (x : ℕ) → x < 16 → hex_digit (hex_char x) ≡ some x
unfolding hex_digit hex_char
hex_digit-hex_char x h = ground arith

strtol_pair-hex_char : (c : ℕ) → c < 256 → strtol_pair (hex_char (c / 16)) (hex_char (c % 16)) ≡ c
unfolding strtol_pair strtol_value
strtol_pair-hex_char c h =
    rw (hex_digit-hex_char (c / 16) (omega arith), hex_digit-hex_char (c % 16) (omega arith))
      (omega arith)

-- All bytes of a text are bytes, and none is NUL.
abbrev pub IsText : List ℕ → Type 0
IsText [] = Unit
IsText (c ∷ s) = (0 < c) × (c < 256) × IsText s

decode-nil : (room : ℕ) → decode room [] ≡ []
unfolding decode
decode-nil zero = refl
decode-nil (suc room) = refl

decode-plain :
    (room c : ℕ) (src : List ℕ) → c ≢ b'%' → decode (suc room) (c ∷ src) ≡ plain c ∷ decode room src
unfolding decode
decode-plain room c [] h = ap (λ l. plain c ∷ l) (sym (decode-nil room))
decode-plain room c (a ∷ []) h = refl
decode-plain room c (a ∷ b ∷ src) h = ground arith

unreserved-plain : (c : ℕ) → is_unreserved c ≡ true → (c ≢ b'%') × (plain c ≡ c)
unfolding is_unreserved plain
unreserved-plain c h = (ground arith, ground arith)

decode-encode_byte :
    (room c : ℕ) (rest : List ℕ)
    → c < 256
    → decode (suc room) (encode_byte c ++ rest) ≡ c ∷ decode room rest
unfolding encode_byte
decode-encode_byte room c rest byte = elim (Bool-cases (is_unreserved c)) [
  | inl u ↦ rw u (
      decode-plain room c rest (unreserved-plain c u).0
      ∙ ap (λ x. x ∷ decode room rest) (unreserved-plain c u).1)
  | inr r ↦ elim (Bool-cases (c == 32)) [
    | inl blank ↦
        rw (r, blank)
          (decode-plain room b'+' rest (omega arith)
            ∙ ap (λ x. x ∷ decode room rest) (unfold plain in ground arith))
    | inr other ↦
        rw (r, other)
          (unfold decode in ap (λ x. x ∷ decode room rest) (strtol_pair-hex_char c byte))
  ]
]

-- For a text of non-zero bytes, decoding its percent-encoding gives back its first bytes, as
-- many as there is room for.
pub decode-encode : (room : ℕ) (s : List ℕ) → IsText s → decode room (encode s) ≡ take room s
unfolding encode
decode-encode zero s t = unfold decode in refl
decode-encode (suc room) [] t = unfold decode in refl
decode-encode (suc room) (c ∷ s) t =
    decode-encode_byte room c (encode s) t.1 ∙ ap (λ l. c ∷ l) (decode-encode room s t.2)

length-decode : (room : ℕ) (src : List ℕ) → length (decode room src) ≤ room
unfolding decode
length-decode zero src = omega arith
length-decode (suc room) [] = omega arith
length-decode (suc room) (c ∷ []) = omega arith
length-decode (suc room) (c ∷ a ∷ []) = omega (arith, length-decode room (a ∷ []))
length-decode (suc room) (c ∷ a ∷ b ∷ src) =
    ground (arith, length-decode room src, length-decode room (a ∷ b ∷ src))

-- For every source and a destination of at least one byte, `url_decode` stores fewer bytes than the
-- destination has, so the NUL behind them is inside it too.
pub length-url_decode :
    (src : List ℕ) (dst_max : ℕ) → 1 ≤ dst_max → length (url_decode src dst_max) < dst_max
unfolding url_decode
length-url_decode src dst_max some_room = omega (arith, length-decode (dst_max - 1) src)
