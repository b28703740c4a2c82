-- ===== src/Tests/Credentials.antt =====
-- The Pico's credentials at concrete inputs: a flash of one sector, and a form that is read with
-- plain string functions.
use textreaderrpi.Pico.Credentials.Serving.{wait}
use textreaderrpi.Pico.Credentials.Serving.Laws.{wait-portal_handler}
use textreaderrpi.Pico.Credentials.Image.{ReadsBack}
use textreaderrpi.Pico.Credentials.Arrays.{padded}
use textreaderrpi.Common.{
  ℕ, ◌≡◌, refl, ap, arith, [], some, List, ◌-◌, ◌+◌, take, drop, replicate, false, if◌then◌else◌,
  ◌∷◌,
}
use textreaderrpi.Common.Text.{codes, same_text}
use textreaderrpi.Memory.{◌>>=◌}
use textreaderrpi.Esp32.Portal.Bytes.{until}
use textreaderrpi.Pico.Credentials.{
  Flash, Request, Portal, Boot, client, portal_handler, write_creds_to_flash, boot,
  flash_cred_offset,
}
use textreaderrpi.Pico.Credentials.Laws.{
  IsValid, portal_handler-IsValid, boot-portal_handler, boot_unnamed,
}

abbrev pub one_sector : Flash
one_sector = record {
  Contents = List ℕ;
  erase = λ offset n c. replicate n 0xFF;
  program = λ offset bytes c. bytes;
  read = λ c a n. take n (drop (a - flash_cred_offset) c);
}

one_sector-ReadsBack : ReadsBack one_sector
one_sector-ReadsBack contents bytes i n size room = ap (λ k. take n (drop k bytes)) inside
  where
    inside : flash_cred_offset + i - flash_cred_offset ≡ i
    inside = omega arith

-- The name up to a `;`, and the rest.
abbrev get_var : List ℕ → List ℕ → ℕ → List ℕ
get_var body name size =
    take (size - 1) (if same_text name (codes "ssid") then until b';' body else drop 5 body)

abbrev fresh : Portal
fresh = record {
  s_save_done = false;
  s_cred = record { ssid = replicate 33 0; pass = replicate 65 0 };
}

fresh-IsValid : IsValid fresh.s_cred
fresh-IsValid = record { ssid_end = refl; pass_end = refl }

abbrev posted : Request
posted = record { uri = codes "/save"; method = codes "POST"; body = codes "home;s3cret" }

abbrev nameless : Request
nameless = record { uri = codes "/save"; method = codes "POST"; body = codes ";;;;;s3cret" }

portal_handler-IsValid_example : IsValid (portal_handler same_text get_var posted fresh).1.s_cred
portal_handler-IsValid_example = portal_handler-IsValid same_text get_var posted fresh fresh-IsValid

boot-portal_handler_example :
    (write_creds_to_flash one_sector (portal_handler same_text get_var posted fresh).1.s_cred []
      >>= λ restarted. some (boot one_sector restarted))
    ≡ some (client (padded 32 (codes "home")) (padded 64 (codes "s3cret")))
boot-portal_handler_example =
    boot-portal_handler same_text get_var one_sector one_sector-ReadsBack [] posted fresh b'h'
      (codes "ome") (codes "s3cret") refl refl refl refl
      (ground arith, (ground arith, (ground arith, (ground arith, tt))))
      (
        ground arith,
        (ground arith, (ground arith, (ground arith, (ground arith, (ground arith, tt))))),
      )
      (omega arith) (omega arith) (ground arith) fresh-IsValid

boot_unnamed_example :
    (write_creds_to_flash one_sector (portal_handler same_text get_var nameless fresh).1.s_cred []
      >>= λ restarted. some (boot one_sector restarted))
    ≡ some Boot.portal
boot_unnamed_example =
    boot_unnamed same_text get_var one_sector one_sector-ReadsBack [] nameless fresh
      (codes "s3cret") refl refl refl refl (omega arith) fresh-IsValid

abbrev page_request : Request
page_request = record { uri = codes "/"; method = codes "GET"; body = [] }

wait-portal_handler_example :
    wait same_text get_var ((page_request ∷ page_request ∷ []) ∷ [] ∷ (posted ∷ []) ∷ []) fresh
    ≡ some (portal_handler same_text get_var posted fresh).1
wait-portal_handler_example =
    wait-portal_handler same_text get_var ((page_request ∷ page_request ∷ []) ∷ [] ∷ []) posted []
      fresh ((refl, (refl, tt)), (tt, tt)) refl refl
