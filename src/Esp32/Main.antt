-- ===== src/Esp32/Main.antt =====
-- firmware/esp32/main/main.c: `app_main`, which sets up the credentials' storage and the display, joins the
-- network, and hands the events of the connection to the client.
pub mod Laws
use textreaderrpi.Common.{ℕ, List, [], Bool, true, false, if◌then◌else◌}
use textreaderrpi.Common.Int.{ℤ}
use textreaderrpi.Machine.{M, Trace, pure, ◌>>=◌}
use textreaderrpi.Esp32.Wifi
use textreaderrpi.Esp32.Wifi.{Nvs, Credentials, Start, wifi_start}
use textreaderrpi.Esp32.Client
use textreaderrpi.Esp32.Client.{handle_all}

-- What `nvs_flash_init` returns.
pub data EspErr : Type 0 where
  ok no_free_pages new_version_found failed : EspErr

unfoldable pub needs_erase : EspErr → Bool
needs_erase EspErr.ok = false
needs_erase EspErr.no_free_pages = true
needs_erase EspErr.new_version_found = true
needs_erase EspErr.failed = false

module _ {S : Type 0} (display : S → List ℕ → List ℕ → ℤ → ℤ → ℤ → M S)
    (parse_message : List ℕ → S → M S) where
  -- `ws_client_start()`, if `wifi_start()` returns: the portal never does.
  unfoldable pub client_start : List Client.Event → Start → S → M (Start × S)
  client_start ws_events Start.portal s = pure (Start.portal, s)
  client_start ws_events (Start.connected_with c) s =
      handle_all display parse_message ws_events s >>= λ s'. pure (Start.connected_with c, s')

module _ (nvs : Nvs) (nvs_flash_init : nvs.Contents → EspErr × nvs.Contents)
    (nvs_flash_erase : nvs.Contents → nvs.Contents) where
  unfoldable pub init_nvs : nvs.Contents → nvs.Contents
  init_nvs contents =
      let (ret, opened) = nvs_flash_init contents in
      if needs_erase ret then (nvs_flash_init (nvs_flash_erase opened)).1 else opened

  unfoldable pub app_main :
      {S : Type 0}
      → (display_init : M S) → (S → List ℕ → List ℕ → ℤ → ℤ → ℤ → M S)
      → (List ℕ → S → M S)
      → (wifi_events : Credentials → List Wifi.Event) → List Client.Event
      → nvs.Contents
      → M (Start × S)
  app_main display_init display parse_message wifi_events ws_events contents =
      display_init
      >>= client_start display parse_message ws_events
          (wifi_start nvs wifi_events (init_nvs contents))
