-- ===== src/Esp32/Wifi.antt =====
-- The credentials and the start of the network on the ESP32: `load_credentials`, `save_credentials`,
-- `wifi_event_handler`, `connect_sta` and `wifi_start` of firmware/esp32/main/captive_portal.c.
pub mod Laws
use textreaderrpi.Common.{
  ℕ, ◌-◌, List, [], ◌∷◌, Option, none, some, Bool, true, false, ◌||◌, ◌==◌, if◌then◌else◌, take,
  get_or, leb, length, suc,
}
use textreaderrpi.Common.Text.{codes, c_string}

-- The NVS library in one name space: `open` for reading or writing may fail; a read of a string
-- fails with `none`, and so does one that does not fit into the buffer with its NUL.
pub record Nvs : Type 1 where
  pub Contents : Type 0
  pub can_read : Contents → Bool
  pub can_write : Contents → Bool
  pub get_str : Contents → List ℕ → ℕ → Option (List ℕ)
  pub set_str : Contents → List ℕ → List ℕ → Contents

pub record Credentials : Type 0 where
  pub ssid : List ℕ
  pub pass : List ℕ

-- `ssid[0] != '\0'`
unfoldable pub named : Credentials → Option Credentials
named c = if get_or c.ssid 0 0 == 0 then none else some c

unfoldable pub with_pass : List ℕ → Option (List ℕ) → Option Credentials
with_pass ssid none = none
with_pass ssid (some pass) = named (record { ssid = ssid; pass = pass })

module _ (nvs : Nvs) where
  open nvs use {Contents, can_read, can_write, get_str, set_str}

  unfoldable pub read_pass : Contents → ℕ → Option (List ℕ) → Option Credentials
  read_pass contents pass_max none = none
  read_pass contents pass_max (some ssid) =
      with_pass ssid (get_str contents (codes "pass") pass_max)

  -- `none` is the result false.
  unfoldable pub load_credentials : Contents → ℕ → ℕ → Option Credentials
  load_credentials contents ssid_max pass_max =
      if can_read contents
      then read_pass contents pass_max (get_str contents (codes "ssid") ssid_max)
      else none

  unfoldable pub save_credentials : List ℕ → List ℕ → Contents → Contents
  save_credentials ssid pass contents =
      if can_write contents
      then set_str (set_str contents (codes "ssid") ssid) (codes "pass") pass
      else contents

-- `strlcpy(dst, src, size)`: what `dst` holds as a C string.
unfoldable pub strlcpy : List ℕ → ℕ → List ℕ
strlcpy src size = take (size - 1) (c_string src)

-- The fields of `wifi_cfg.sta`: `ssid` has 32 bytes and `password` 64.
unfoldable pub sta_config : Credentials → Credentials
sta_config c = record { ssid = strlcpy c.ssid 32; pass = strlcpy c.pass 64 }

-- The events that `wifi_event_handler` tests for; it connects again, or sets WIFI_CONNECTED_BIT.
pub data Event : Type 0 where
  sta_disconnected got_ip : Event

-- WIFI_CONNECTED_BIT and the number of calls of `esp_wifi_connect`.
pub record Station : Type 0 where
  pub connected : Bool
  pub attempts : ℕ

unfoldable pub wifi_event_handler : Event → Station → Station
wifi_event_handler Event.sta_disconnected s = record s { attempts = suc s.attempts }
wifi_event_handler Event.got_ip s = record s { connected = true }

unfoldable pub handle_all : List Event → Station → Station
handle_all [] s = s
handle_all (e ∷ events) s = handle_all events (wifi_event_handler e s)

-- The bit after the events of the 15 seconds for which the code waits, from one call of
-- `esp_wifi_connect` on; nothing clears it.
unfoldable pub connect_sta : List Event → Station
connect_sta events = handle_all events (record { connected = false; attempts = 1 })

-- What `wifi_start` comes to: it returns, connected with these names, or it opens the portal.
pub data Start : Type 0 where
  connected_with : Credentials → Start
  portal : Start

-- The events are those that come for a configuration of the station.
unfoldable pub start_with : (Credentials → List Event) → Option Credentials → Start
start_with events none = Start.portal
start_with events (some c) =
    if (connect_sta (events (sta_config c))).connected
    then Start.connected_with (sta_config c)
    else Start.portal

unfoldable pub wifi_start : (nvs : Nvs) → (Credentials → List Event) → nvs.Contents → Start
wifi_start nvs events contents = start_with events (load_credentials nvs contents 64 64)
