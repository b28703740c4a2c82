-- ===== src/Pico/Client.antt =====
-- firmware/pico/src/ws_client.c: the events of the WebSocket connection, and the loop that connects
-- again and polls.
pub mod Laws
pub mod Course
use textreaderrpi.Common.{ℕ, suc, List, [], ◌∷◌, Bool, true, false, take, if◌then◌else◌}
use textreaderrpi.Common.Int.{ℤ, pos}
use textreaderrpi.Common.Text.{codes, c_string}
use textreaderrpi.Machine.{M, pure, emit, delay, ◌>>◌, ◌>>=◌}

-- The events that `ws_handler` tests for; no other event has an effect.
pub data Event : Type 0 where
  ws_open : Event
  ws_msg : (bytes : List ℕ) → Event
  close : Event

-- `s_connected`, how often `mg_ws_connect` has been called, and the driver's variables.
pub record Client (S : Type 0) : Type 0 where
  pub s_connected : Bool
  pub connections : ℕ
  pub panel : S

-- RECONNECT_INTERVAL_MS
abbrev pub reconnect_interval_ms : ℕ
reconnect_interval_ms = 5000

module _ {S : Type 0} (display : S → List ℕ → List ℕ → ℤ → ℤ → ℤ → M S)
    (parse_message : List ℕ → S → M S) where
  -- A message is cut to 511 bytes, and `parse_message` reads it up to a NUL.
  unfoldable pub ws_handler : Event → Client S → M (Client S)
  ws_handler Event.ws_open c = pure (record c { s_connected = true })
  ws_handler (Event.ws_msg bytes) c = do
    panel' ← parse_message (c_string (take 511 bytes)) c.panel
    pure (record c { panel = panel' })
  ws_handler Event.close c = pure (record c { s_connected = false })

  unfoldable pub reconnect : Client S → M (Client S)
  reconnect c = if c.s_connected then pure c else (do
    panel' ← display c.panel (codes "Connecting...") (codes "BLINK") (pos 500) (pos 500) (pos 8)
    emit (delay reconnect_interval_ms ∷ [])
    pure (record c { connections = suc c.connections; panel = panel' }))

  -- `mg_mgr_poll` calls the handler for each event that has come.
  unfoldable pub poll : List Event → Client S → M (Client S)
  poll [] c = pure c
  poll (e ∷ events) c = ws_handler e c >>= poll events

  -- One round of the loop.
  unfoldable pub round : List Event → Client S → M (Client S)
  round events c = do c' ← reconnect c; c'' ← poll events c'; emit (delay 1 ∷ []); pure c''

  -- The loop never ends; this is its course over the polls so far.
  unfoldable pub rounds : List (List Event) → Client S → M (Client S)
  rounds [] c = pure c
  rounds (events ∷ polls) c = round events c >>= rounds polls
