-- ===== src/Pico/Main.antt =====
-- firmware/pico/src/main.c: `main`, which goes on with the portal or with the display and the client.
pub mod Laws
use textreaderrpi.Common.{ℕ, List, [], ◌∷◌}
use textreaderrpi.Common.Int.{ℤ}
use textreaderrpi.Machine.{M, Setup, setup, pure, emit, ◌>>◌, ◌>>=◌}
use textreaderrpi.Pico.Credentials.{Flash, Boot, boot}
use textreaderrpi.Pico.Client.{Event, Client, rounds}
use textreaderrpi.Common.{false}

module _ {S : Type 0} (display_init : M S) (display : S → List ℕ → List ℕ → ℤ → ℤ → ℤ → M S)
    (parse_message : List ℕ → S → M S) where
  -- The course so far of what `main` goes on with; the portal is that of Credentials/Serving.
  unfoldable pub go_on : List (List Event) → Boot → M (Boot × List (Client S))
  go_on polls Boot.portal = pure (Boot.portal, [])
  go_on polls (Boot.client ssid pass) = do
    s ← display_init
    c ←
        rounds display parse_message polls
          (record { s_connected = false; connections = 0; panel = s })
    pure (Boot.client ssid pass, c ∷ [])

  unfoldable pub main :
      (flash : Flash) → flash.Contents → List (List Event) → M (Boot × List (Client S))
  main flash contents polls = do
    emit (setup Setup.stdio_init_all ∷ [])
    go_on polls (boot flash contents)
