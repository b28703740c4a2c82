-- ===== src/Esp32/Wifi/Laws.antt =====
-- The start of the ESP32 after credentials were saved.
use textreaderrpi.Common.{
  ◌==◌, ap, ap₂, take_all, true, false, ℕ, List, [], ◌∷◌, ◌≡◌, ◌||◌, Bool, refl, arith, suc, ◌+◌,
  length, ◌≢◌, ◌∙◌, ◌<◌, some, if◌then◌else◌, take,
}
use textreaderrpi.Common.Text.{codes, same_text, c_string_lem, IsCString}
use textreaderrpi.Esp32.Wifi.{
  Event, handle_all, wifi_event_handler, connect_sta, Nvs, Credentials, strlcpy, sta_config, Start,
  start_with, wifi_start, load_credentials, save_credentials, read_pass, with_pass, named,
}

abbrev pub has_ip : List Event → Bool
has_ip [] = false
has_ip (Event.got_ip ∷ events) = true
has_ip (Event.sta_disconnected ∷ events) = has_ip events

abbrev pub disconnects : List Event → ℕ
disconnects [] = 0
disconnects (Event.got_ip ∷ events) = disconnects events
disconnects (Event.sta_disconnected ∷ events) = suc (disconnects events)

or_false : (b : Bool) → b ≡ (b || false)
or_false true = refl
or_false false = refl

or_true : (b : Bool) → true ≡ (b || true)
or_true true = refl
or_true false = refl

handle_all_lem :
    (events : List Event) (b : Bool) (n : ℕ)
    → handle_all events (record { connected = b; attempts = n })
      ≡ record { connected = b || has_ip events; attempts = disconnects events + n }
unfolding handle_all wifi_event_handler
handle_all_lem [] b n = ap₂ (λ c k. record { connected = c; attempts = k }) (or_false b) none_more
  where
    none_more : n ≡ 0 + n
    none_more = omega arith
handle_all_lem (Event.got_ip ∷ events) b n =
    handle_all_lem events true n
    ∙ ap (λ c. record { connected = c; attempts = disconnects events + n }) (or_true b)
handle_all_lem (Event.sta_disconnected ∷ events) b n =
    handle_all_lem events b (suc n)
    ∙ ap (λ k. record { connected = b || has_ip events; attempts = k }) one_more
  where
    one_more : disconnects events + suc n ≡ suc (disconnects events) + n
    one_more = omega arith

-- The station counts as connected exactly if it got an address in time, also if it was lost again,
-- and each disconnection is answered by one more attempt.
pub connect_sta-has_ip :
    (events : List Event)
    → connect_sta events ≡ record { connected = has_ip events; attempts = disconnects events + 1 }
unfolding connect_sta
connect_sta-has_ip events = handle_all_lem events false 1

-- What the storage is relied on for: a string that was set can be read into a buffer that has room
-- for it and its NUL, and setting one key leaves the others alone.
pub record ReadsBack (nvs : Nvs) : Type 0 where
  pub readable : (c : nvs.Contents) (k v : List ℕ) → nvs.can_read (nvs.set_str c k v) ≡ true
  pub get_same :
      (c : nvs.Contents) (k v : List ℕ) (n : ℕ)
      → length v < n
      → nvs.get_str (nvs.set_str c k v) k n ≡ some v
  pub get_other :
      (c : nvs.Contents) (k k' v : List ℕ) (n : ℕ)
      → same_text k k' ≡ false
      → nvs.get_str (nvs.set_str c k' v) k n ≡ nvs.get_str c k n

module _ (nvs : Nvs) (reads : ReadsBack nvs) where
  load_credentials-save_credentials :
      (contents : nvs.Contents) (c : ℕ) (s pass : List ℕ)
      → nvs.can_write contents ≡ true
      → c ≢ 0
      → length (c ∷ s) < 64
      → length pass < 64
      → load_credentials nvs (save_credentials nvs (c ∷ s) pass contents) 64 64
        ≡ some (record { ssid = c ∷ s; pass = pass })
  unfolding load_credentials save_credentials read_pass with_pass named
  load_credentials-save_credentials contents c s pass can not_nul short short_pass =
      ap (λ k. load_credentials nvs k 64 64) saved ∙ loaded
    where
      named_only : nvs.Contents
      named_only = nvs.set_str contents (codes "ssid") (c ∷ s)

      saved :
          save_credentials nvs (c ∷ s) pass contents ≡ nvs.set_str named_only (codes "pass") pass
      saved = rw (can) refl

      different : (c == 0) ≡ false
      different = ground arith

      loaded :
          load_credentials nvs (nvs.set_str named_only (codes "pass") pass) 64 64
          ≡ some (record { ssid = c ∷ s; pass = pass })
      loaded =
          rw
            (
              reads.readable named_only (codes "pass") pass,
              reads.get_other named_only (codes "ssid") (codes "pass") pass 64 refl,
              reads.get_same contents (codes "ssid") (c ∷ s) 64 short,
              reads.get_same named_only (codes "pass") pass 64 short_pass,
              different,
            )
            refl

  -- For a storage that reads back what is set and can be written: after the portal has saved a name
  -- and a password of at most 63 bytes without NUL, the name not empty, the restarted board
  -- configures exactly the first 31 bytes of the name and the whole password, and it
  -- returns connected if it gets an address with them in time, else it opens the portal.
  pub wifi_start-save_credentials :
      (events : Credentials → List Event) (contents : nvs.Contents) (c : ℕ) (s pass : List ℕ)
      → nvs.can_write contents ≡ true
      → IsCString (c ∷ s)
      → IsCString pass
      → length (c ∷ s) < 64
      → length pass < 64
      → wifi_start nvs events (save_credentials nvs (c ∷ s) pass contents) ≡ (
          if has_ip (events (record { ssid = take 31 (c ∷ s); pass = pass }))
          then Start.connected_with (record { ssid = take 31 (c ∷ s); pass = pass })
          else Start.portal)
  unfolding wifi_start start_with sta_config strlcpy
  wifi_start-save_credentials events contents c s pass can st pt short short_pass =
      rw
        (
          load_credentials-save_credentials contents c s pass can st.0 short short_pass,
          c_string_lem (c ∷ s) st,
          c_string_lem pass pt,
          take_all 63 pass (omega arith),
          connect_sta-has_ip (events (record { ssid = take 31 (c ∷ s); pass = pass })),
        )
        refl
