-- ===== src/Esp32/Main/Laws.antt =====
-- What the board does from its start on.
use textreaderrpi.Common.{ℕ, ◌≡◌, refl, ap, List, [], ◌++◌, some, append-nil}
use textreaderrpi.Common.Int.{ℤ}
use textreaderrpi.Machine.{M, Trace, after}
use textreaderrpi.Message.{Json, parse_message}
use textreaderrpi.Esp32.Wifi
use textreaderrpi.Esp32.Wifi.{Nvs, Credentials, Start, load_credentials, start_with, wifi_start}
use textreaderrpi.Esp32.Client
use textreaderrpi.Message.Answer.{Answer, Follows}
use textreaderrpi.Esp32.Client.Laws.{CallsAll, handle_all-CallsAll}
use textreaderrpi.Esp32.Ota.{ota_trigger}
use textreaderrpi.Esp32.Main.{EspErr, init_nvs, client_start, app_main}

-- The portal shows nothing.
unfoldable pub shown_after : Start → Trace → Trace
shown_after Start.portal t = []
shown_after (Start.connected_with c) t = t

module _ (json : Json) (answer : Answer) {S : Type 0}
    (display : S → List ℕ → List ℕ → ℤ → ℤ → ℤ → M S) (follows : Follows display answer) where
  client_start-CallsAll :
      (ws_events : List Client.Event) (t : Trace) (start : Start) (s : S)
      → CallsAll json answer ota_trigger ws_events t
      → (s' : S) × (client_start display (parse_message json display ota_trigger) ws_events start s
          ≡ some ((start, s'), shown_after start t))
  unfolding client_start shown_after
  client_start-CallsAll ws_events t Start.portal s calls = (s, refl)
  client_start-CallsAll ws_events t (Start.connected_with c) s calls =
      let run = handle_all-CallsAll json answer display follows ota_trigger ws_events t s calls in
      (run.0, rw (run.1) (ap (λ u. some ((Start.connected_with c, run.0), u)) (append-nil t)))

  module _ (nvs : Nvs) (nvs_flash_init : nvs.Contents → EspErr × nvs.Contents)
      (nvs_flash_erase : nvs.Contents → nvs.Contents) where
    -- If the display starts with `t0` and sends `answer` in every state, the text messages end within
    -- their buffers, and their numbers fit into `int`: from power-on the board sends `t0`, and
    -- then, if it joined the network, exactly what the messages mean, with the defaults of missing
    -- fields, and the notices of lost connections, in order; if not, nothing more, for the portal is
    -- open.
    pub app_main-CallsAll :
        (display_init : M S) (s0 : S) (t0 : Trace) (wifi_events : Credentials → List Wifi.Event)
        (ws_events : List Client.Event) (t : Trace) (contents : nvs.Contents)
        → display_init ≡ some (s0, t0)
        → CallsAll json answer ota_trigger ws_events t
        → (s' : S) × (app_main nvs nvs_flash_init nvs_flash_erase display_init display
              (parse_message json display ota_trigger)
              wifi_events
              ws_events
              contents
            ≡ some (
              (
                wifi_start nvs wifi_events (init_nvs nvs nvs_flash_init nvs_flash_erase contents),
                s',
              ),
              t0
                  ++ shown_after
                      (wifi_start nvs wifi_events
                        (init_nvs nvs nvs_flash_init nvs_flash_erase contents))
                      t,
            ))
    unfolding app_main
    app_main-CallsAll display_init s0 t0 wifi_events ws_events t contents starts calls =
        let start =
          wifi_start nvs wifi_events (init_nvs nvs nvs_flash_init nvs_flash_erase contents) in
        let run = client_start-CallsAll ws_events t start s0 calls in
        (run.0, rw (starts) (ap (after t0) run.1))
