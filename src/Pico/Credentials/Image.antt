-- ===== src/Pico/Credentials/Image.antt =====
-- The sector's image: what is written to the flash and what is read from it at the start.
use textreaderrpi.Pico.Credentials.Arrays.{padded, take_front, drop_front, reclosed, length-padded}
use textreaderrpi.Memory.Laws.{write_all_front}
use textreaderrpi.Pico.Credentials.{
  Boot, Flash, flash_sector_size, write_all, flash_cred_offset, load_creds, write_creds_to_flash,
  ◌>>=◌,
}
use textreaderrpi.Common.{
  ap₂, ◌==◌, ℕ, List, [], ◌∷◌, ◌++◌, take, drop, length, replicate, ◌≡◌, ◌-◌, ◌≤◌, arith, ◌+◌, ap,
  append_assoc, length-append, some, refl, replicate-add, length-replicate, ◌∙◌, if◌then◌else◌,
  get_or, none,
}

-- What the flash is relied on for: an erased sector that is programmed reads back as the bytes.
abbrev pub ReadsBack : Flash → Type 0
ReadsBack flash =
    (contents : flash.Contents) (bytes : List ℕ) (i n : ℕ)
    → length bytes ≡ flash_sector_size
    → i + n ≤ length bytes
    → flash.read
        (flash.program flash_cred_offset bytes
          (flash.erase flash_cred_offset flash_sector_size contents))
        (flash_cred_offset + i) n
      ≡ take n (drop i bytes)

sector_room : 98 ≤ flash_sector_size
unfolding flash_sector_size
sector_room = omega arith

-- The sector's image: the credentials and then erased bytes.
abbrev pub image : List ℕ → List ℕ → List ℕ
image ssid pass = padded 32 ssid ++ (padded 64 pass ++ replicate (flash_sector_size - 98) 0xFF)

module _ (ssid pass : List ℕ) (short : length ssid ≤ 32) (short_pass : length pass ≤ 64) where
  write_image :
      write_all (padded 32 ssid ++ padded 64 pass) (replicate flash_sector_size 0xFF) 0
      ≡ some (image ssid pass, 98)
  write_image =
      ap (λ l. write_all (padded 32 ssid ++ padded 64 pass) l 0) erased
      ∙ write_all_front (padded 32 ssid ++ padded 64 pass) (replicate 98 0xFF)
          (replicate (flash_sector_size - 98) 0xFF) (omega (arith, both))
      ∙ ap₂ (λ l n. some (l, n))
          (append_assoc (padded 32 ssid) (padded 64 pass) (replicate (flash_sector_size - 98) 0xFF))
          both
    where
      both : length (padded 32 ssid ++ padded 64 pass) ≡ 98
      both = omega (
        arith,
        length-append (padded 32 ssid) (padded 64 pass),
        length-padded 32 ssid short,
        length-padded 64 pass short_pass,
      )

      split : flash_sector_size ≡ 98 + (flash_sector_size - 98)
      split = omega (arith, sector_room)

      erased :
          replicate flash_sector_size 0xFF
          ≡ replicate {A = ℕ} 98 0xFF ++ replicate (flash_sector_size - 98) 0xFF
      erased = ap (λ n. replicate n 0xFF) split ∙ replicate-add 98 (flash_sector_size - 98) 0xFF

  length-image : length (image ssid pass) ≡ flash_sector_size
  length-image = omega (
    arith,
    sector_room,
    length-padded 32 ssid short,
    length-padded 64 pass short_pass,
    length-append (padded 32 ssid) (padded 64 pass ++ replicate (flash_sector_size - 98) 0xFF),
    length-append (padded 64 pass) (replicate (flash_sector_size - 98) 0xFF),
    length-replicate {A = ℕ} (flash_sector_size - 98) 0xFF,
  )

  module _ (flash : Flash) (reads : ReadsBack flash) (contents : flash.Contents) where
    abbrev pub written : flash.Contents
    written =
        flash.program flash_cred_offset (image ssid pass)
          (flash.erase flash_cred_offset flash_sector_size contents)

    written-ssid :
        (n : ℕ) → n ≤ 33 → flash.read written (flash_cred_offset + 0) n ≡ take n (image ssid pass)
    written-ssid n h =
        reads contents (image ssid pass) 0 n length-image (omega (arith, length-image, sector_room))

    written-pass : flash.read written (flash_cred_offset + 33) 65 ≡ padded 64 pass
    written-pass =
        reads contents (image ssid pass) 33 65 length-image
          (omega (arith, length-image, sector_room))
        ∙ ap (take 65) (
            drop_front (padded 32 ssid) (padded 64 pass ++ replicate (flash_sector_size - 98) 0xFF)
              33 (length-padded 32 ssid short))
        ∙ take_front (padded 64 pass) (replicate (flash_sector_size - 98) 0xFF) 65
            (length-padded 64 pass short_pass)

    loaded_ssid : take 32 (flash.read written (flash_cred_offset + 0) 33) ++ 0 ∷ [] ≡ padded 32 ssid
    loaded_ssid =
        ap (λ l. take 32 l ++ 0 ∷ [])
          (written-ssid 33 (omega arith)
            ∙ take_front (padded 32 ssid)
                (padded 64 pass ++ replicate (flash_sector_size - 98) 0xFF) 33
                (length-padded 32 ssid short))
        ∙ reclosed 32 ssid short

    loaded_pass :
        take 64 (flash.read written (flash_cred_offset + 33) 65) ++ 0 ∷ [] ≡ padded 64 pass
    loaded_pass = ap (λ l. take 64 l ++ 0 ∷ []) written-pass ∙ reclosed 64 pass short_pass

    -- What `load_creds` finds after the write, for the first byte and the name's array.
    pub load_creds-written : load_creds flash written ≡ (
        if get_or (take 1 (image ssid pass)) 0 0 == 0xFF
        then none
        else if get_or (padded 32 ssid) 0 0 == 0
        then none
        else some (record { ssid = padded 32 ssid; pass = padded 64 pass }))
    unfolding load_creds
    load_creds-written = rw (loaded_ssid, loaded_pass, written-ssid 1 (omega arith)) refl

    pub write_then :
        (f : flash.Contents → Boot)
        → (write_creds_to_flash flash
              (record { ssid = padded 32 ssid; pass = padded 64 pass })
              contents
            >>= λ c. some (f c))
          ≡ some (f written)
    unfolding write_creds_to_flash
    write_then f = rw (write_image) refl
