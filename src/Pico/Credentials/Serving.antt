-- ===== src/Pico/Credentials/Serving.antt =====
-- The loop of `wifi_start` in firmware/pico/src/captive_portal.c, which serves the portal until
-- credentials have been saved.
pub mod Laws
use textreaderrpi.Common.{List, [], ◌∷◌, ℕ, Bool, Option, none, some, if◌then◌else◌}
use textreaderrpi.Pico.Credentials.{Request, Portal, portal_handler}

module _ (mg_match : List ℕ → List ℕ → Bool) (get_var : List ℕ → List ℕ → ℕ → List ℕ) where
  -- One call of `mg_mgr_poll`, which hands the requests that have come to the handler.
  unfoldable pub serve : List Request → Portal → Portal
  serve [] p = p
  serve (r ∷ requests) p = serve requests (portal_handler mg_match get_var r p).1

  -- `while (!s_save_done)` over the polls so far; `none` while it still waits.
  unfoldable pub wait : List (List Request) → Portal → Option Portal
  wait [] p = if p.s_save_done then some p else none
  wait (requests ∷ polls) p = if p.s_save_done then some p else wait polls (serve requests p)
