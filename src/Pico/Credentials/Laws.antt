-- ===== src/Pico/Credentials/Laws.antt =====
-- The portal's handler, the write to flash and the start-up of the Pico, put together.
use textreaderrpi.Pico.Credentials.Image.{ReadsBack, load_creds-written, write_then}
use textreaderrpi.Pico.Credentials.Arrays.{padded, c_string-padded, strncpy-padded, strncpy-end}
use textreaderrpi.Common.Text.{IsCString}
use textreaderrpi.Pico.Credentials.{
  Boot, client, Request, Portal, portal_handler, boot, start_with, Cred, Flash, load_creds,
  write_creds_to_flash, ◌>>=◌, codes,
}
use textreaderrpi.Common.{
  true, ◌&&◌, Bool, Bool-cases, inl, inr, ◌==◌, false, ℕ, suc, List, [], ◌∷◌, drop, length, ◌≢◌,
  replicate, ◌≡◌, ◌-◌, ◌≤◌, arith, some, refl, ◌∙◌,
}

-- The arrays of `s_cred`: each has its size, and its last byte is NUL.
pub record IsValid (cred : Cred) : Type 0 where
  pub ssid_end : drop 32 cred.ssid ≡ 0 ∷ []
  pub pass_end : drop 64 cred.pass ≡ 0 ∷ []

start_with-padded :
    (ssid pass : List ℕ)
    → IsCString ssid
    → IsCString pass
    → length ssid ≤ 32
    → length pass ≤ 64
    → start_with (some (record { ssid = padded 32 ssid; pass = padded 64 pass }))
      ≡ client (padded 32 ssid) (padded 64 pass)
unfolding start_with
start_with-padded ssid pass st pt short short_pass =
    rw
      (
        c_string-padded ssid (suc 32 - length ssid) st,
        c_string-padded pass (suc 64 - length pass) pt,
        strncpy-padded 32 ssid (replicate 33 0) short refl,
        strncpy-padded 64 pass (replicate 65 0) short_pass refl,
      )
      refl

module _ (mg_match : List ℕ → List ℕ → Bool) (get_var : List ℕ → List ℕ → ℕ → List ℕ) where
  -- If both arrays of `s_cred` have their size and end in NUL, they do so after every request.
  pub portal_handler-IsValid :
      (request : Request) (portal : Portal)
      → IsValid portal.s_cred
      → IsValid (portal_handler mg_match get_var request portal).1.s_cred
  unfolding portal_handler
  portal_handler-IsValid request portal v =
      elim (Bool-cases
        (mg_match request.uri (codes "/save") && mg_match request.method (codes "POST"))) [
          | inl t ↦ rw t (record {
            ssid_end =
                strncpy-end 32 (get_var request.body (codes "ssid") 33) portal.s_cred.ssid
                ∙ v.ssid_end;
            pass_end =
                strncpy-end 64 (get_var request.body (codes "pass") 65) portal.s_cred.pass
                ∙ v.pass_end;
          })
          | inr f ↦ rw f v
        ]

  saved_cred :
      (request : Request) (portal : Portal) (ssid pass : List ℕ)
      → mg_match request.uri (codes "/save") ≡ true
      → mg_match request.method (codes "POST") ≡ true
      → get_var request.body (codes "ssid") 33 ≡ ssid
      → get_var request.body (codes "pass") 65 ≡ pass
      → length ssid ≤ 32
      → length pass ≤ 64
      → IsValid portal.s_cred
      → (portal_handler mg_match get_var request portal).1.s_cred
        ≡ record { ssid = padded 32 ssid; pass = padded 64 pass }
  unfolding portal_handler
  saved_cred request portal ssid pass uri method name key short short_pass v =
      rw
        (
          uri,
          method,
          name,
          key,
          strncpy-padded 32 ssid portal.s_cred.ssid short v.ssid_end,
          strncpy-padded 64 pass portal.s_cred.pass short_pass v.pass_end,
        )
        refl

  module _ (flash : Flash) (reads : ReadsBack flash) (contents : flash.Contents) where
    -- For a flash that reads back what is programmed, and valid arrays: after a POST of /save with
    -- a name of 1 to 32 bytes that does not begin with the byte 0xFF and a password of at most 64
    -- bytes, both without NUL, the restarted board connects with exactly that name and password.
    pub boot-portal_handler :
        (request : Request) (portal : Portal) (c : ℕ) (s pass : List ℕ)
        → mg_match request.uri (codes "/save") ≡ true
        → mg_match request.method (codes "POST") ≡ true
        → get_var request.body (codes "ssid") 33 ≡ c ∷ s
        → get_var request.body (codes "pass") 65 ≡ pass
        → IsCString (c ∷ s)
        → IsCString pass
        → length (c ∷ s) ≤ 32
        → length pass ≤ 64
        → c ≢ 0xFF
        → IsValid portal.s_cred
        → (write_creds_to_flash flash
              (portal_handler mg_match get_var request portal).1.s_cred
              contents
            >>= λ restarted. some (boot flash restarted))
          ≡ some (client (padded 32 (c ∷ s)) (padded 64 pass))
    unfolding boot
    boot-portal_handler request portal c s pass uri method name key st pt short short_pass used v =
        rw
          (
            saved_cred request portal (c ∷ s) pass uri method name key short short_pass v,
            write_then (c ∷ s) pass short short_pass flash reads contents
                (λ r. start_with (load_creds flash r)),
            load_creds-written (c ∷ s) pass short short_pass flash reads contents,
            not_erased,
            not_empty,
            start_with-padded (c ∷ s) pass st pt short short_pass,
          )
          refl
      where
        not_erased : (c == 0xFF) ≡ false
        not_erased = ground arith

        not_empty : (c == 0) ≡ false
        not_empty = ground arith

    -- For a flash that reads back what is programmed, and valid arrays: a POST of /save with an empty
    -- name and a password of at most 64 bytes brings the restarted board back to the portal.
    pub boot_unnamed :
        (request : Request) (portal : Portal) (pass : List ℕ)
        → mg_match request.uri (codes "/save") ≡ true
        → mg_match request.method (codes "POST") ≡ true
        → get_var request.body (codes "ssid") 33 ≡ []
        → get_var request.body (codes "pass") 65 ≡ pass
        → length pass ≤ 64
        → IsValid portal.s_cred
        → (write_creds_to_flash flash
              (portal_handler mg_match get_var request portal).1.s_cred
              contents
            >>= λ restarted. some (boot flash restarted))
          ≡ some Boot.portal
    unfolding boot start_with
    boot_unnamed request portal pass uri method name key short_pass v =
        rw
          (
            saved_cred request portal [] pass uri method name key (omega arith) short_pass v,
            write_then [] pass (omega arith) short_pass flash reads contents
                (λ r. start_with (load_creds flash r)),
            load_creds-written [] pass (omega arith) short_pass flash reads contents,
          )
          refl
