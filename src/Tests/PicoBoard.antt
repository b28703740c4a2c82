-- ===== src/Tests/PicoBoard.antt =====
-- The Pico from power-on at a concrete input, with the HT16K33 as the display.
use textreaderrpi.Common.{ℕ, ◌≡◌, refl, List, [], ◌∷◌, ◌++◌, some, true, false, replicate, arith}
use textreaderrpi.Common.Int.{pos}
use textreaderrpi.Common.Text.{codes}
use textreaderrpi.Machine.{Trace, Setup, setup, delay}
use textreaderrpi.Message.{parse_message}
use textreaderrpi.Pico.Ht16k33
use textreaderrpi.Pico.Credentials.{boot}
use textreaderrpi.Pico.Client.{Event, Client}
use textreaderrpi.Pico.Client.Course.{
  Course, notice, quiet, opened, closed, told, stopped, then_round,
}
use textreaderrpi.Pico.Ota.{ota_trigger}
use textreaderrpi.Pico.Main.{main}
use textreaderrpi.Pico.Main.Laws.{shown_after, main-Course}
use textreaderrpi.Tests.Credentials.{one_sector}
use textreaderrpi.Tests.Board.{scrolled, answer, display, display-Follows, hi-IsCString, hi-Replies}

-- A sector with the name `home` and the password `s3cret`.
abbrev saved : List ℕ
saved = (codes "home" ++ replicate 29 0) ++ (codes "s3cret" ++ replicate 59 0)

initialized : (t : Trace) × (Ht16k33.display_init ≡ some (replicate 8 0, t))
unfolding Ht16k33.display_init
initialized = (_, refl)

-- The connection opens in the second round, a text comes in the third, and the connection closes.
abbrev polls : List (List Event)
polls = [] ∷ (Event.ws_open ∷ []) ∷ (Event.ws_msg (codes "Hi") ∷ Event.close ∷ []) ∷ []

abbrev sent : Trace
sent =
    (notice answer false ++ ([] ++ delay 1 ∷ []))
    ++ ((notice answer false ++ ([] ++ delay 1 ∷ []))
        ++ ((notice answer true
              ++ ((answer (codes "Hi") (codes "SCROLL") (pos 50) (pos 500) (pos 8) ++ [])
                  ++ delay 1 ∷ []))
            ++ []))

polls-Course : Course scrolled answer false polls sent
polls-Course = then_round _ _ _ _ _ _ (quiet _) (
    then_round _ _ _ _ _ _ (opened _ _ _ _ (quiet _)) (
      then_round _ _ _ _ _ _
        (told _ _ _ _ _ (codes "Hi") (omega arith) hi-IsCString hi-Replies
          (closed _ _ _ _ (quiet _)))
        (stopped _)))

main-Course_example :
    (clients : List (Client (List ℕ))) × (main Ht16k33.display_init display
        (parse_message scrolled display (ota_trigger true))
        one_sector
        saved
        polls
      ≡ some (
        (boot one_sector saved, clients),
        setup Setup.stdio_init_all ∷ shown_after (boot one_sector saved) (initialized.0 ++ sent),
      ))
main-Course_example =
    main-Course scrolled answer display display-Follows Ht16k33.display_init (replicate 8 0)
      initialized.0 initialized.1 true one_sector saved polls sent polls-Course
