-- ===== src/Tests/Network.antt =====
-- The messages and the Pico's connection at concrete inputs, with the HT16K33 as the display.
use textreaderrpi.Common.{ℕ, refl, List, [], ◌∷◌, some, false, replicate, if◌then◌else◌}
use textreaderrpi.Common.Int.{ℤ, pos}
use textreaderrpi.Common.Text.{codes, same_text}
use textreaderrpi.Machine.{M, delay}
use textreaderrpi.Driver.{clamp_speed}
use textreaderrpi.Ht16k33
use textreaderrpi.Ht16k33.Spec.{effect_trace}
use textreaderrpi.Ht16k33.Laws.{display_text-slides}
use textreaderrpi.Message.{Json, Item, parse_message}
use textreaderrpi.Message.Laws.{Fits, Shows, parse_message-Succeeds}
use textreaderrpi.Pico.Client.{Event, rounds}
use textreaderrpi.Pico.Client.Laws.{Reaches, rounds-Reaches}

-- Every text is an object whose `text` is the text itself and whose `speed` is 80.
abbrev echo : Json
echo = record {
  Root = List ℕ;
  Double = ℤ;
  parse = λ t. some t;
  get_item = λ root key.
      if same_text key (codes "text")
      then Item.string root
      else if same_text key (codes "speed")
      then Item.number (pos 80)
      else Item.other;
  to_int = λ d. some d;
}

echo-Fits : Fits echo
echo-Fits root key d e = (d, refl)

abbrev display : List ℕ → List ℕ → List ℕ → ℤ → ℤ → ℤ → M (List ℕ)
display s text effect speed blink_period fade_steps = Ht16k33.display_text s text effect speed

display-Shows : Shows display
display-Shows s text effect speed blink_period fade_steps =
    let sent = display_text-slides s text effect speed in
    (sent.0, effect_trace text effect (clamp_speed speed), sent.1)

abbrev handle : List ℕ → List ℕ → M (List ℕ)
handle = parse_message echo display (delay 10 ∷ [])

rounds-Reaches_example :
    Reaches
      (rounds display handle
        ((Event.close ∷ []) ∷ [] ∷ (Event.ws_msg (codes "Hi") ∷ []) ∷ [])
        (record { s_connected = false; connections = 2; panel = replicate 8 0 }))
      false
      5
rounds-Reaches_example =
    rounds-Reaches display display-Shows handle
      (parse_message-Succeeds echo echo-Fits display display-Shows (delay 10 ∷ [])) false 2
      ((Event.close ∷ []) ∷ [] ∷ (Event.ws_msg (codes "Hi") ∷ []) ∷ []) (replicate 8 0)
      ((tt, tt), (tt, ((tt, tt), tt)))
