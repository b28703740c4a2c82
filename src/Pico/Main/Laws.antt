-- ===== src/Pico/Main/Laws.antt =====
-- What the Pico does from its start on.
use textreaderrpi.Common.{ℕ, ◌≡◌, refl, ap, List, [], ◌∷◌, ◌++◌, some, Bool, false, append-nil}
use textreaderrpi.Common.Int.{ℤ}
use textreaderrpi.Machine.{M, Trace, Setup, setup}
use textreaderrpi.Message.{Json, parse_message}
use textreaderrpi.Message.Answer.{Answer, Follows}
use textreaderrpi.Pico.Credentials.{Flash, Boot, boot}
use textreaderrpi.Pico.Client.{Event, Client}
use textreaderrpi.Pico.Client.Course.{Course, rounds-Course}
use textreaderrpi.Pico.Ota.{ota_trigger}
use textreaderrpi.Pico.Main.{go_on, main}

-- The portal shows nothing.
unfoldable pub shown_after : Boot → Trace → Trace
shown_after Boot.portal t = []
shown_after (Boot.client ssid pass) t = t

module _ (json : Json) (answer : Answer) {S : Type 0}
    (display : S → List ℕ → List ℕ → ℤ → ℤ → ℤ → M S) (follows : Follows display answer)
    (display_init : M S) (s0 : S) (t0 : Trace) (starts : display_init ≡ some (s0, t0))
    (picowota_available : Bool) where
  abbrev handle : List ℕ → S → M S
  handle = parse_message json display (ota_trigger picowota_available)

  go_on-Course :
      (polls : List (List Event)) (t : Trace) (start : Boot)
      → Course json answer false polls t
      → (clients : List (Client S)) × (go_on display_init display handle polls start
          ≡ some ((start, clients), shown_after start (t0 ++ t)))
  unfolding go_on shown_after
  go_on-Course polls t Boot.portal course = ([], refl)
  go_on-Course polls t (Boot.client ssid pass) course =
      let run =
        rounds-Course json answer display follows (ota_trigger picowota_available) false 0 polls t
          s0 course in
      (
        run.0 ∷ [],
        rw (starts, run.1)
            (ap (λ u. some ((Boot.client ssid pass, run.0 ∷ []), t0 ++ u)) (append-nil t)),
      )

  -- If the display starts with `t0` and sends `answer` in every state, and each message fits into the
  -- buffer of 511 bytes, has numbers that fit into `int`, and is not the command `ota`: from power-on
  -- `main` sets up the console and goes on as `boot` says. While the portal is open the display is sent
  -- nothing; otherwise it is sent `t0` and then the course of the connection, however long the loop
  -- runs: the notices of the rounds that begin offline and the effects of the messages in order, with
  -- the defaults of missing fields.
  pub main-Course :
      (flash : Flash) (contents : flash.Contents) (polls : List (List Event)) (t : Trace)
      → Course json answer false polls t
      → (clients : List (Client S)) × (main display_init display handle flash contents polls
          ≡ some (
            (boot flash contents, clients),
            setup Setup.stdio_init_all ∷ shown_after (boot flash contents) (t0 ++ t),
          ))
  unfolding main
  main-Course flash contents polls t course =
      let run = go_on-Course polls t (boot flash contents) course in (run.0, rw (run.1) refl)
