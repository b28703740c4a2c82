-- ===== src/Esp32/Portal/Dns.antt =====
-- `dns_task` of firmware/esp32/main/captive_portal.c: the answer to one datagram.
pub mod Laws
use textreaderrpi.Common.{
  ℕ, zero, suc, ◌+◌, ◌<◌, List, [], ◌∷◌, Option, none, some, ltb, if◌then◌else◌, length, replicate,
}
use textreaderrpi.Memory.{◌>>=◌, store, load_prefix, write_all}

-- The sixteen bytes behind the question: a pointer to its name, type A, class IN, a time to live of
-- 60 seconds, and the address 192.168.4.1.
abbrev pub answer : List ℕ
answer =
    0xC0 ∷ 0x0C ∷ 0x00 ∷ 0x01 ∷ 0x00 ∷ 0x01 ∷ 0x00 ∷ 0x00 ∷ 0x00 ∷ 0x3C ∷ 0x00 ∷ 0x04 ∷ 192 ∷ 168
    ∷ 4 ∷ 1 ∷ []

pub data Reply : Type 0 where
  ignored : Reply
  sent : (bytes : List ℕ) → Reply

-- `buf` has the `len` bytes that `recvfrom` returned; `none` is an access outside `resp[512]`.
unfoldable pub respond : List ℕ → Option Reply
respond buf = if ltb (length buf) 12 then some Reply.ignored else (do
  (resp, len) ← write_all buf (replicate 512 0) 0
  resp1 ← store resp 2 0x81
  resp2 ← store resp1 3 0x80
  resp3 ← store resp2 7 1
  (resp4, rlen) ← write_all answer resp3 len
  bytes ← load_prefix resp4 rlen
  some (Reply.sent bytes))
