-- ===== src/Tests/Wifi.antt =====
-- The start of the ESP32's network at concrete inputs, with a storage of two strings.
use textreaderrpi.Common.{
  ℕ, ◌≡◌, refl, List, [], ◌∷◌, Option, none, some, true, length, ltb, if◌then◌else◌, arith, ◌==◌,
  lt→ltb,
}
use textreaderrpi.Common.Text.{codes, same_text}
use textreaderrpi.Esp32.Wifi.{Nvs, Event, Start, connect_sta, save_credentials, wifi_start}
use textreaderrpi.Esp32.Wifi.Laws.{ReadsBack, connect_sta-has_ip, wifi_start-save_credentials}

-- A key that is set is put in front of the older ones.
abbrev find : List ℕ → ℕ → List (List ℕ × List ℕ) → Option (List ℕ)
find k n [] = none
find k n (e ∷ entries) =
    if same_text k e.0 then (if ltb (length e.1) n then some e.1 else none) else find k n entries

abbrev entries_nvs : Nvs
entries_nvs = record {
  Contents = List (List ℕ × List ℕ);
  can_read = λ c. true;
  can_write = λ c. true;
  get_str = λ c k n. find k n c;
  set_str = λ c k v. (k, v) ∷ c;
}

same_text_refl : (k : List ℕ) → same_text k k ≡ true
same_text_refl [] = refl
same_text_refl (c ∷ k) = rw (same, same_text_refl k) refl
  where
    same : (c == c) ≡ true
    same = ground arith

entries-ReadsBack : ReadsBack entries_nvs
entries-ReadsBack = record {
  readable = λ c k v. refl;
  get_same = λ c k v n lt. rw (same_text_refl k, lt→ltb (length v) n lt) refl;
  get_other = λ c k k' v n e. rw e refl;
}

connect_sta-has_ip_example :
    connect_sta (Event.sta_disconnected ∷ Event.got_ip ∷ [])
    ≡ record { connected = true; attempts = 2 }
connect_sta-has_ip_example = connect_sta-has_ip (Event.sta_disconnected ∷ Event.got_ip ∷ [])

wifi_start-save_credentials_example :
    wifi_start entries_nvs
      (λ c. Event.got_ip ∷ [])
      (save_credentials entries_nvs (codes "home") (codes "s3cret") [])
    ≡ Start.connected_with (record { ssid = codes "home"; pass = codes "s3cret" })
wifi_start-save_credentials_example =
    wifi_start-save_credentials entries_nvs entries-ReadsBack (λ c. Event.got_ip ∷ []) [] b'h'
      (codes "ome") (codes "s3cret") refl
      (ground arith, (ground arith, (ground arith, (ground arith, tt))))
      (
        ground arith,
        (ground arith, (ground arith, (ground arith, (ground arith, (ground arith, tt))))),
      )
      (omega arith) (omega arith)
