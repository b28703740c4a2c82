-- ===== src/Pico/Credentials.antt =====
-- The credentials on the Pico: the portal's handler and the write to flash of
-- firmware/pico/src/captive_portal.c, and the read at start-up of firmware/pico/src/main.c.
pub mod Arrays
pub mod Image
pub mod Laws
pub mod Serving
use textreaderrpi.Common.{
  ℕ, ◌+◌, ◌*◌, List, [], ◌∷◌, ◌++◌, Option, none, some, Bool, true, false, ◌&&◌, ◌==◌,
  if◌then◌else◌, take, drop, replicate, get_or,
}
use textreaderrpi.Common.Text.{codes, same_text, c_string}
use textreaderrpi.Memory.{◌>>=◌, write_all}

-- firmware/pico/config.h
abbrev pub flash_cred_offset : ℕ
flash_cred_offset = 256 * 1024

unfoldable pub flash_sector_size : ℕ
flash_sector_size = 4096

-- `cred_t`, and `stored_cred_t` with the same arrays: `char ssid[33]` and `char pass[65]`.
pub record Cred : Type 0 where
  pub ssid : List ℕ
  pub pass : List ℕ

-- `strncpy(dst, src, n)`: bytes of `src`, then NULs, `n` in all.
unfoldable pub strncpy : ℕ → List ℕ → List ℕ → List ℕ
strncpy n src dst = take n (src ++ replicate n 0) ++ drop n dst

-- The static variables of the portal.
pub record Portal : Type 0 where
  pub s_save_done : Bool
  pub s_cred : Cred

-- The parts of an HTTP message that the handler reads.
pub record Request : Type 0 where
  pub uri : List ℕ
  pub method : List ℕ
  pub body : List ℕ

pub data Page : Type 0 where
  form_html success_html : Page

-- `mg_match` (with no captures) and the C string that `mg_http_get_var` leaves in a buffer of a size.
module _ (mg_match : List ℕ → List ℕ → Bool) (get_var : List ℕ → List ℕ → ℕ → List ℕ) where
  -- The handler of MG_EV_HTTP_MSG; no other event has an effect.
  unfoldable pub portal_handler : Request → Portal → Page × Portal
  portal_handler request portal =
      if mg_match request.uri (codes "/save") && mg_match request.method (codes "POST")
      then (
        Page.success_html,
        record {
          s_save_done = true;
          s_cred = record {
            ssid = strncpy 32 (get_var request.body (codes "ssid") 33) portal.s_cred.ssid;
            pass = strncpy 64 (get_var request.body (codes "pass") 65) portal.s_cred.pass;
          };
        },
      )
      else (Page.form_html, portal)

-- The flash of the Pico SDK: `flash_range_erase` of a size at an offset, `flash_range_program` at an
-- offset, and a read of some bytes at an offset.
pub record Flash : Type 1 where
  pub Contents : Type 0
  pub erase : ℕ → ℕ → Contents → Contents
  pub program : ℕ → List ℕ → Contents → Contents
  pub read : Contents → ℕ → ℕ → List ℕ

module _ (flash : Flash) where
  open flash use {Contents, erase, program, read}

  -- `none` is a copy past the end of `buf`.
  unfoldable pub write_creds_to_flash : Cred → Contents → Option Contents
  write_creds_to_flash cred contents = do
    (buf, len) ← write_all (cred.ssid ++ cred.pass) (replicate flash_sector_size 0xFF) 0
    some (program flash_cred_offset buf (erase flash_cred_offset flash_sector_size contents))

  -- `none` is the result false.
  unfoldable pub load_creds : Contents → Option Cred
  load_creds contents =
      let ssid = take 32 (read contents (flash_cred_offset + 0) 33) ++ 0 ∷ [] in
      let pass = take 64 (read contents (flash_cred_offset + 33) 65) ++ 0 ∷ [] in
      if get_or (read contents (flash_cred_offset + 0) 1) 0 0 == 0xFF
      then none
      else if get_or ssid 0 0 == 0
      then none
      else some (record { ssid = ssid; pass = pass })

-- What `main` goes on with: the portal, or the network client with the names `g_wifi_ssid` and
-- `g_wifi_pass`, which are zero before.
pub data Boot : Type 0 where
  portal : Boot
  client : (g_wifi_ssid g_wifi_pass : List ℕ) → Boot

unfoldable pub start_with : Option Cred → Boot
start_with none = Boot.portal
start_with (some cred) =
    Boot.client (strncpy 32 (c_string cred.ssid) (replicate 33 0))
      (strncpy 64 (c_string cred.pass) (replicate 65 0))

unfoldable pub boot : (flash : Flash) → flash.Contents → Boot
boot flash contents = start_with (load_creds flash contents)
