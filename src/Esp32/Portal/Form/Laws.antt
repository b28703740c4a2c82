-- ===== src/Esp32/Portal/Form/Laws.antt =====
-- `portal_post_handler` on the body that a browser's form posts.
use textreaderrpi.Esp32.Portal.Form.{raw_value, field, post_handler, saved}
use textreaderrpi.Esp32.Portal.UrlDecode.{url_decode}
use textreaderrpi.Common.{
  false, ℕ, ◌≤◌, ◌<◌, ◌≡◌, ◌≢◌, refl, List, [], ◌∷◌, ◌++◌, some, arith, ◌/◌, ◌%◌, Bool-cases, inl,
  inr, ◌==◌, length, length-append, take, take_all, ap, append_assoc, ◌∙◌, sym,
}
use textreaderrpi.Common.Text.{c_string, codes}
use textreaderrpi.Esp32.Portal.Bytes.{until, strstr, starts_with}
use textreaderrpi.Esp32.Portal.UrlDecode.Encode.{encode, encode_byte, hex_char, is_unreserved}
use textreaderrpi.Esp32.Portal.UrlDecode.Laws.{IsText, decode-encode}

-- No byte of the list is a NUL, an `&` or an `=`.
abbrev IsOpaque : List ℕ → Type 0
IsOpaque [] = Unit
IsOpaque (c ∷ s) = (c ≢ 0) × (c ≢ b'&') × (c ≢ b'=') × IsOpaque s

IsOpaque-append : (s t : List ℕ) → IsOpaque s → IsOpaque t → IsOpaque (s ++ t)
IsOpaque-append [] t p q = q
IsOpaque-append (c ∷ s) t p q = (p.0, p.1, p.2, IsOpaque-append s t p.3 q)

hex_char-range : (x : ℕ) → x < 16 → (b'0' ≤ hex_char x) × (hex_char x ≤ b'F') × (hex_char x ≢ b'=')
unfolding hex_char
hex_char-range x h = ground arith

encode_byte-IsOpaque : (c : ℕ) → 0 < c → c < 256 → IsOpaque (encode_byte c)
unfolding encode_byte is_unreserved
encode_byte-IsOpaque c p q =
    let hi = hex_char-range (c / 16) (omega arith) in
    let lo = hex_char-range (c % 16) (omega arith) in
    elim (Bool-cases (is_unreserved c)) [
      | inl u ↦ rw u (ground arith, ground arith, ground arith, tt)
      | inr r ↦ elim (Bool-cases (c == 32)) [
        | inl blank ↦ rw (r, blank) (omega arith, omega arith, omega arith, tt)
        | inr other ↦
            rw (r, other)
              (
                omega arith,
                omega arith,
                omega arith,
                (
                  omega (arith, hi),
                  omega (arith, hi),
                  hi.2,
                  (omega (arith, lo), omega (arith, lo), lo.2, tt),
                ),
              )
      ]
    ]

encode-IsOpaque : (s : List ℕ) → IsText s → IsOpaque (encode s)
unfolding encode
encode-IsOpaque [] t = tt
encode-IsOpaque (c ∷ s) t =
    IsOpaque-append (encode_byte c) (encode s) (encode_byte-IsOpaque c t.0 t.1)
      (encode-IsOpaque s t.2)

until-amp : (s t : List ℕ) → IsOpaque s → until b'&' (s ++ b'&' ∷ t) ≡ s
until-amp [] t o = refl
until-amp (c ∷ s) t o = ground (arith, until-amp s t o.3)

until_end : (s : List ℕ) → IsOpaque s → until b'&' s ≡ s
until_end [] o = refl
until_end (c ∷ s) o = ground (arith, until_end s o.3)

-- A key with its `=` does not begin inside an opaque text.
pass_not_here :
    (c : ℕ) (s t : List ℕ)
    → IsOpaque (c ∷ s)
    → starts_with (codes "pass=") (c ∷ (s ++ b'&' ∷ codes "pass=" ++ t)) ≡ false
pass_not_here c [] t o = ground arith
pass_not_here c (x ∷ []) t o = ground arith
pass_not_here c (x ∷ y ∷ []) t o = ground arith
pass_not_here c (x ∷ y ∷ z ∷ []) t o = ground arith
pass_not_here c (x ∷ y ∷ z ∷ w ∷ r) t o = ground arith

strstr-pass :
    (s t : List ℕ)
    → IsOpaque s
    → strstr (s ++ b'&' ∷ codes "pass=" ++ t) (codes "pass=") ≡ some (codes "pass=" ++ t)
strstr-pass [] t o = refl
strstr-pass (c ∷ s) t o = rw (pass_not_here c s t o) (strstr-pass s t o.3)

c_string_text : (s : List ℕ) → IsText s → c_string s ≡ s
c_string_text [] t = refl
c_string_text (c ∷ s) t = ground (arith, c_string_text s t.2)

IsOpaque-c_string : (s : List ℕ) → IsOpaque s → c_string s ≡ s
IsOpaque-c_string [] o = refl
IsOpaque-c_string (c ∷ s) o = ground (arith, IsOpaque-c_string s o.3)

c_string-append : (s t : List ℕ) → IsOpaque s → c_string (s ++ t) ≡ s ++ c_string t
c_string-append [] t o = refl
c_string-append (c ∷ s) t o = ground (arith, c_string-append s t o.3)

length-encode_byte : (c : ℕ) → 1 ≤ length (encode_byte c)
unfolding encode_byte
length-encode_byte c = ground arith

length-encode : (s : List ℕ) → length s ≤ length (encode s)
unfolding encode
length-encode [] = omega arith
length-encode (c ∷ s) =
    omega (arith, length-append (encode_byte c) (encode s), length-encode_byte c, length-encode s)

-- A value that is short enough when encoded comes out of its field as it went in.
value-encode :
    (s : List ℕ)
    → IsText s
    → length (encode s) ≤ 63
    → c_string (url_decode (take 63 (encode s)) 64) ≡ s
unfolding url_decode
value-encode s t short = rw (
  take_all 63 (encode s) short,
  decode-encode 63 s t,
  take_all 63 s (omega (arith, length-encode s)),
  c_string_text s t,
)

-- The body of the form's request.
abbrev pub form_body : List ℕ → List ℕ → List ℕ
form_body ssid pass = codes "ssid=" ++ (encode ssid ++ b'&' ∷ codes "pass=" ++ encode pass)

c_string-form_body : (s p : List ℕ) → IsText s → IsText p → c_string (form_body s p) ≡ form_body s p
c_string-form_body s p st pt =
    ap (λ l. codes "ssid=" ++ l)
      (ap c_string (append_assoc (encode s) mid (encode p))
        ∙ c_string-append (encode s) (mid ++ encode p) (encode-IsOpaque s st)
        ∙ ap (λ l. encode s ++ (mid ++ l)) (IsOpaque-c_string (encode p) (encode-IsOpaque p pt))
        ∙ sym (append_assoc (encode s) mid (encode p)))
  where
    mid : List ℕ
    mid = b'&' ∷ codes "pass="

field-ssid :
    (s p : List ℕ) → IsText s → length (encode s) ≤ 63 → field (codes "ssid=") (form_body s p) ≡ s
unfolding field
field-ssid s p st short =
    ap (λ l. c_string (url_decode (take 63 (until b'&' l)) 64))
      (append_assoc (encode s) (b'&' ∷ codes "pass=") (encode p))
    ∙ ap (λ l. c_string (url_decode (take 63 l) 64))
        (until-amp (encode s) (codes "pass=" ++ encode p) (encode-IsOpaque s st))
    ∙ value-encode s st short

field-pass :
    (s p : List ℕ)
    → IsText s
    → IsText p
    → length (encode p) ≤ 63
    → field (codes "pass=") (form_body s p) ≡ p
unfolding field
field-pass s p st pt short =
    ap (λ o. c_string (url_decode (raw_value o) 64))
      (strstr-pass (encode s) (encode p) (encode-IsOpaque s st))
    ∙ ap (λ l. c_string (url_decode (take 63 l) 64)) (until_end (encode p) (encode-IsOpaque p pt))
    ∙ value-encode p pt short

-- The credentials that a browser encodes into the form are the ones that are saved: the name of the
-- network is not empty, neither value has a NUL, and neither is longer than 63 bytes when encoded.
pub post_handler-form_body :
    (c : ℕ) (s p : List ℕ)
    → IsText (c ∷ s)
    → IsText p
    → length (encode (c ∷ s)) ≤ 63
    → length (encode p) ≤ 63
    → post_handler (some (form_body (c ∷ s) p)) ≡ saved (c ∷ s) p
unfolding post_handler
post_handler-form_body c s p st pt short_ssid short_pass = rw (
  c_string-form_body (c ∷ s) p st pt,
  field-ssid (c ∷ s) p st short_ssid,
  field-pass (c ∷ s) p st pt short_pass,
)
