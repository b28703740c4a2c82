-- ===== src/Tests/Portal.antt =====
-- Runs of the portal, and its properties at concrete inputs.
use textreaderrpi.Common.{◌<◌, ◌≡◌, ◌≤◌, [], ◌∷◌, ◌++◌, some, length, take, arith}
use textreaderrpi.Common.Text.{codes}
use textreaderrpi.Esp32.Portal.UrlDecode.{decode, url_decode}
use textreaderrpi.Esp32.Portal.UrlDecode.Encode.{encode, encode_byte, is_unreserved}
use textreaderrpi.Esp32.Portal.UrlDecode.Laws.{decode-encode, length-url_decode}
use textreaderrpi.Esp32.Portal.Form.{post_handler, saved}
use textreaderrpi.Esp32.Portal.Form.Laws.{form_body, post_handler-form_body}
use textreaderrpi.Esp32.Portal.Dns.{respond, sent, answer}
use textreaderrpi.Esp32.Portal.Dns.Laws.{respond-query}

decode-encode_example : decode 63 (encode (codes "My WiFi!")) ≡ take 63 (codes "My WiFi!")
decode-encode_example = decode-encode 63 (codes "My WiFi!") (omega arith)

length-url_decode_example : length (url_decode (codes "a+b%21") 3) < 3
length-url_decode_example = length-url_decode (codes "a+b%21") 3 (omega arith)

short_encoding : length (encode (codes "My WiFi!")) ≤ 63
unfolding encode encode_byte is_unreserved
short_encoding = omega arith

short_password : length (encode (codes "p&w=1")) ≤ 63
unfolding encode encode_byte is_unreserved
short_password = omega arith

post_handler-form_body_example :
    post_handler (some (form_body (codes "My WiFi!") (codes "p&w=1")))
    ≡ saved (codes "My WiFi!") (codes "p&w=1")
post_handler-form_body_example =
    post_handler-form_body b'M' (codes "y WiFi!") (codes "p&w=1") (omega arith) (omega arith)
      short_encoding short_password

respond-query_example :
    respond (7 ∷ 9 ∷ 1 ∷ 0 ∷ 0 ∷ 1 ∷ 0 ∷ 0 ∷ 0 ∷ 0 ∷ 0 ∷ 0 ∷ 1 ∷ b'a' ∷ 0 ∷ 0 ∷ 1 ∷ 0 ∷ 1 ∷ [])
    ≡ some (
        sent (
          (7 ∷ 9 ∷ 0x81 ∷ 0x80 ∷ 0 ∷ 1 ∷ 0 ∷ 1 ∷ 0 ∷ 0 ∷ 0 ∷ 0 ∷ 1 ∷ b'a' ∷ 0 ∷ 0 ∷ 1 ∷ 0 ∷ 1 ∷ [])
          ++ answer))
respond-query_example =
    respond-query 7 9 1 0 0 1 0 0 0 0 0 0 (1 ∷ b'a' ∷ 0 ∷ 0 ∷ 1 ∷ 0 ∷ 1 ∷ []) (omega arith)
