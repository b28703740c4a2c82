-- ===== src/Esp32/Client.antt =====
-- firmware/esp32/main/ws_client.c: the events of the WebSocket connection. The client library connects
-- again by itself.
pub mod Laws
use textreaderrpi.Common.{ℕ, List, [], ◌∷◌, Option, none, some, if◌then◌else◌, ◌==◌}
use textreaderrpi.Common.Int.{ℤ, pos}
use textreaderrpi.Common.Text.{codes}
use textreaderrpi.Machine.{M, pure, lift, ◌>>◌, ◌>>=◌}
use textreaderrpi.Memory.{under}

-- The events that `ws_event_handler` tests for. `memory` is what stands in memory from `ev->data_ptr` to
-- the end of the library's buffer.
pub data Event : Type 0 where
  received : (op_code : ℕ) (memory : List ℕ) → Event
  disconnected : Event
  connected : Event

-- A C string that begins where `memory` begins: the bytes before the first NUL. Without a NUL it is read
-- past the end of the buffer.
unfoldable pub read_string : List ℕ → Option (List ℕ)
read_string [] = none
read_string (b ∷ memory) = if b == 0 then some [] else under b (read_string memory)

module _ {S : Type 0} (display : S → List ℕ → List ℕ → ℤ → ℤ → ℤ → M S)
    (parse_message : List ℕ → S → M S) where
  unfoldable pub on_data : ℕ → List ℕ → S → M S
  on_data op_code memory s =
      if op_code == 1
      then (lift (read_string memory) >>= λ message. parse_message message s)
      else pure s

  unfoldable pub ws_event_handler : Event → S → M S
  ws_event_handler (Event.received op_code memory) s = on_data op_code memory s
  ws_event_handler Event.disconnected s =
      display s (codes "Connecting...") (codes "SCROLL") (pos 80) (pos 0) (pos 0)
  ws_event_handler Event.connected s = pure s

  -- The library calls the handler for one event after the other.
  unfoldable pub handle_all : List Event → S → M S
  handle_all [] s = pure s
  handle_all (e ∷ events) s = ws_event_handler e s >>= handle_all events
