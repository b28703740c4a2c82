-- ===== src/Esp32/Portal/Form.antt =====
-- `portal_post_handler` of firmware/esp32/main/captive_portal.c: the fields of the posted form.
pub mod Laws
use textreaderrpi.Common.{ℕ, ◌+◌, ◌≤◌, List, [], ◌∷◌, Option, none, some, take, drop}
use textreaderrpi.Common.Text.{c_string, codes}
use textreaderrpi.Esp32.Portal.Bytes.{until, strstr}
use textreaderrpi.Esp32.Portal.UrlDecode.{url_decode}

-- `p += 5; end = strchr(p, '&'); len = ...; if (len > 63) len = 63; memcpy(raw, p, len);`
unfoldable pub raw_value : Option (List ℕ) → List ℕ
raw_value none = []
raw_value (some p) = take 63 (until b'&' (drop 5 p))

-- A field of the body, as a C string in a buffer of 64 bytes: a decoded NUL ends it.
unfoldable pub field : List ℕ → List ℕ → List ℕ
unfolding raw_value
field key body = c_string (url_decode (raw_value (strstr body key)) 64)

-- What the handler does: it fails with no answer, answers 400, or saves and restarts.
pub data Outcome : Type 0 where
  failed : Outcome
  bad_request : Outcome
  saved : (ssid pass : List ℕ) → Outcome

check_ssid : List ℕ → List ℕ → Outcome
check_ssid [] pass = Outcome.bad_request
check_ssid (c ∷ ssid) pass = Outcome.saved (c ∷ ssid) pass

-- `received` is what `httpd_req_recv` puts into the 255 bytes that it is given: none or no bytes at
-- a result of zero or less.
unfoldable pub post_handler : Option (List ℕ) → Outcome
unfolding check_ssid
post_handler none = Outcome.failed
post_handler (some []) = Outcome.failed
post_handler (some (c ∷ received)) =
    let body = c_string (c ∷ received) in
    check_ssid (field (codes "ssid=") body) (field (codes "pass=") body)
