-- ===== src/Tests/Board.antt =====
-- The ESP32 from power-on at a concrete input, with the HT16K33 as the display.
use textreaderrpi.Common.{
  ℕ, ◌≡◌, refl, List, [], ◌∷◌, ◌++◌, some, none, true, false, replicate, if◌then◌else◌, arith,
}
use textreaderrpi.Common.Int.{ℤ, pos}
use textreaderrpi.Common.Text.{codes, same_text, IsCString}
use textreaderrpi.Machine.{M, Trace, delay}
use textreaderrpi.Driver.{clamp_speed}
use textreaderrpi.Ht16k33.Spec.{effect_trace}
use textreaderrpi.Ht16k33.Laws.{display_text-slides}
use textreaderrpi.Message.{Json, Item, parse_message}
use textreaderrpi.Esp32.Config.{Chip}
use textreaderrpi.Esp32.Ht16k33
use textreaderrpi.Esp32.Wifi
use textreaderrpi.Esp32.Wifi.{Nvs, wifi_start}
use textreaderrpi.Esp32.Client.{Event, ws_event_handler, handle_all}
use textreaderrpi.Message.Answer.{
  Answer, Follows, Wish, TextField, NumberField, Replies, asked, not_json, Means, replied, update,
  parse_message-Means,
}
use textreaderrpi.Esp32.Client.Laws.{
  CallsAll, terminated, text_message, lost, back, no_event, then_event, ws_event_handler-none,
  handle_all-CallsAll,
}
use textreaderrpi.Esp32.Ota.{ota_trigger}
use textreaderrpi.Esp32.Main.{EspErr, init_nvs, app_main}
use textreaderrpi.Esp32.Main.Laws.{shown_after, app_main-CallsAll}

-- Every text but `update` is an object whose `text` is the text itself, with the effect SCROLL and no
-- numbers; `update` is the command.
abbrev pub scrolled : Json
scrolled = record {
  Root = List ℕ;
  Double = ℤ;
  parse = λ t. if same_text t (codes "{") then none else some t;
  get_item = λ root key.
      if same_text root (codes "update")
      then (if same_text key (codes "command") then Item.string (codes "ota") else Item.other)
      else if same_text key (codes "text")
      then Item.string root
      else if same_text key (codes "effect")
      then Item.string (codes "SCROLL")
      else Item.other;
  to_int = λ d. some d;
}

abbrev pub answer : Answer
answer text effect speed blink_period fade_steps = effect_trace text effect (clamp_speed speed)

abbrev pub display : List ℕ → List ℕ → List ℕ → ℤ → ℤ → ℤ → M (List ℕ)
display s text effect speed blink_period fade_steps = Ht16k33.display_text s text effect speed

pub display-Follows : Follows display answer
unfolding Ht16k33.display_text
display-Follows s text effect speed blink_period fade_steps =
    display_text-slides s text effect speed

pub hi-IsCString : IsCString (codes "Hi")
hi-IsCString = (ground arith, (ground arith, tt))

abbrev pub wish : Wish
wish = record {
  text = codes "Hi";
  effect = codes "SCROLL";
  speed = pos 50;
  blink_period = pos 500;
  fade_steps = pos 8;
}

pub hi-Replies :
    Replies scrolled answer
      (codes "Hi")
      (answer (codes "Hi") (codes "SCROLL") (pos 50) (pos 500) (pos 8))
hi-Replies = asked (codes "Hi") wish (record {
  root = codes "Hi";
  parsed = refl;
  no_ota = λ e. cc;
  has_text = TextField.given _ _;
  has_effect = TextField.given _ _;
  has_speed = NumberField.missing _;
  has_blink = NumberField.missing _;
  has_fade = NumberField.missing _;
})

update-IsCString : IsCString (codes "update")
update-IsCString = (
  ground arith,
  (ground arith, (ground arith, (ground arith, (ground arith, (ground arith, tt))))),
)

broken-IsCString : IsCString (codes "{")
broken-IsCString = (ground arith, tt)

-- A message, the command, a text that is not JSON, and the end of the connection.
abbrev events : List Event
events =
    Event.connected
    ∷ Event.received 1 (terminated (codes "Hi") (7 ∷ []))
    ∷ Event.received 1 (terminated (codes "update") [])
    ∷ Event.received 1 (terminated (codes "{") [])
    ∷ Event.disconnected
    ∷ []

abbrev sent : Trace
sent =
    []
    ++ (answer (codes "Hi") (codes "SCROLL") (pos 50) (pos 500) (pos 8)
        ++ (ota_trigger
            ++ ([]
                ++ (answer (codes "Connecting...") (codes "SCROLL") (pos 80) (pos 0) (pos 0)
                    ++ []))))

update-Means : Means scrolled answer ota_trigger (codes "update") ota_trigger
update-Means = update (codes "update") (codes "update") refl refl

events-CallsAll : CallsAll scrolled answer ota_trigger events sent
events-CallsAll = then_event _ _ _ _ back (
    then_event _ _ _ _ (text_message (codes "Hi") (7 ∷ []) _ hi-IsCString (replied _ _ hi-Replies))
      (then_event _ _ _ _ (text_message (codes "update") [] _ update-IsCString update-Means) (
        then_event _ _ _ _
          (text_message (codes "{") [] _ broken-IsCString (replied _ _ (not_json _ refl)))
          (then_event _ _ _ _ lost no_event))))

parse_message-Means_example :
    (s : List ℕ) × (parse_message scrolled display (delay 10 ∷ []) (codes "Hi") (replicate 8 0)
      ≡ some (s, answer (codes "Hi") (codes "SCROLL") (pos 50) (pos 500) (pos 8)))
parse_message-Means_example =
    parse_message-Means scrolled answer display display-Follows (delay 10 ∷ []) (codes "Hi") _
      (replicate 8 0) (replied _ _ hi-Replies)

handle_all-CallsAll_example :
    (s : List ℕ) × (handle_all display
        (parse_message scrolled display ota_trigger)
        events
        (replicate 8 0)
      ≡ some (s, sent))
handle_all-CallsAll_example =
    handle_all-CallsAll scrolled answer display display-Follows ota_trigger events sent
      (replicate 8 0) events-CallsAll

ws_event_handler-none_example :
    ws_event_handler display
      (parse_message scrolled display ota_trigger)
      (Event.received 1 (codes "Hi"))
      (replicate 8 0)
    ≡ none
ws_event_handler-none_example =
    ws_event_handler-none display (parse_message scrolled display ota_trigger) (codes "Hi")
      (replicate 8 0) hi-IsCString

-- A storage that has one name and one password.
abbrev home : Nvs
home = record {
  Contents = Unit {0};
  can_read = λ c. true;
  can_write = λ c. false;
  get_str = λ c key size. some (codes "home");
  set_str = λ c key value. c;
}

initialized : (t : Trace) × (Ht16k33.display_init Chip.classic ≡ some (replicate 8 0, t))
unfolding Ht16k33.display_init
initialized = (_, refl)

abbrev started : (Unit {0}) → EspErr × Unit {0}
started c = (EspErr.new_version_found, c)

app_main-CallsAll_example :
    (s : List ℕ) × (app_main home started
        (λ c. c)
        (Ht16k33.display_init Chip.classic)
        display
        (parse_message scrolled display ota_trigger)
        (λ c. Wifi.Event.got_ip ∷ [])
        events
        tt
      ≡ some (
        (wifi_start home (λ c. Wifi.Event.got_ip ∷ []) (init_nvs home started (λ c. c) tt), s),
        initialized.0
            ++ shown_after
                (wifi_start home (λ c. Wifi.Event.got_ip ∷ []) (init_nvs home started (λ c. c) tt))
                sent,
      ))
app_main-CallsAll_example =
    app_main-CallsAll scrolled answer display display-Follows home started (λ c. c)
      (Ht16k33.display_init Chip.classic) (replicate 8 0) initialized.0
      (λ c. Wifi.Event.got_ip ∷ []) events sent tt initialized.1 events-CallsAll
