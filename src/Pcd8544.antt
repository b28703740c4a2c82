-- ===== src/Pcd8544.antt =====
-- The PCD8544 driver, a panel of 84 columns and 6 rows of bytes of which the first row shows the
-- text: firmware/esp32/main/driver/pcd8544.c and firmware/pico/src/driver/pcd8544.c are one program
-- over `write`, which sends a byte as a command (0) or as data (1).
pub mod Row
unfoldable pub use Row.{build_bitmap, fill_row}
pub mod Spec
pub mod Laws
use textreaderrpi.Common.{
  ℕ, zero, suc, ◌+◌, ◌-◌, ◌*◌, ◌/◌, List, [], ◌∷◌, ◌++◌, if◌then◌else◌, replicate, bit_or,
}
use textreaderrpi.Common.Int.{ℤ}
use textreaderrpi.Common.Text.{codes, same_text}
use textreaderrpi.Machine.{M, Trace, pure, emit, lift, delay, ◌>>◌, ◌>>=◌}
use textreaderrpi.Memory.{load}
use textreaderrpi.Driver.{clamp_speed}
use textreaderrpi.Driver.Loops.{for_up, traces_up}
use textreaderrpi.Driver.Reverse.{reversed}

-- The static arrays `s_fb` and `bmp`.
pub record State : Type 0 where
  pub s_fb : List ℕ
  pub bmp : List ℕ

module _ (write : ℕ → ℕ → Trace) where
  unfoldable pub flush : List ℕ → M (Unit {0})
  flush fb = do
    emit (write 0x40 0 ++ write 0x80 0)
    for_up 504 0 (λ i. lift (load fb i) >>= λ byte. emit (write byte 1))

  unfoldable pub display_clear : State → M State
  display_clear s = do flush (replicate 504 0); pure (record s { s_fb = replicate 504 0 })

  -- `memset`, the loop over `col`, and the flush: one frame.
  unfoldable pub show_at : List ℕ → ℕ → ℕ → M (List ℕ)
  show_at bmp bmp_len offset = do
    fb ← lift (fill_row bmp bmp_len offset (replicate 504 0))
    flush fb
    pure fb

  -- `for (offset = k; n rounds; offset++)`
  unfoldable pub scroll_from : ℕ → ℕ → List ℕ → ℕ → ℕ → List ℕ → M (List ℕ)
  scroll_from zero offset bmp bmp_len sp fb = pure fb
  scroll_from (suc n) offset bmp bmp_len sp fb = do
    fb' ← show_at bmp bmp_len offset
    emit (delay sp ∷ [])
    scroll_from n (suc offset) bmp bmp_len sp fb'

  -- `offset <= bmp_len - width` holds in `bmp_len + 1 - width` rounds.
  unfoldable pub scroll : List ℕ → ℕ → State → M State
  scroll text sp s = do
    (bmp', bmp_len) ← lift (build_bitmap text s.bmp)
    fb ← scroll_from (bmp_len + 1 - 84) 0 bmp' bmp_len sp s.s_fb
    pure (record { s_fb = fb; bmp = bmp' })

  unfoldable pub show_start : List ℕ → State → M State
  show_start text s = do
    (bmp', bmp_len) ← lift (build_bitmap text s.bmp)
    fb ← show_at bmp' bmp_len 0
    pure (record { s_fb = fb; bmp = bmp' })

  unfoldable pub blink_loop : ℕ → Trace
  blink_loop sp = traces_up 6 0 (λ i. delay sp ∷ write 0x09 0 ++ (delay sp ∷ write 0x0C 0))

  unfoldable pub set_contrast : ℕ → Trace
  set_contrast v = write 0x21 0 ++ (write v 0 ++ write 0x20 0)

  -- The two loops over `v`: 0, 2, ... 62 and 63, 61, ... 1.
  unfoldable pub fade_loops : ℕ → Trace
  fade_loops step_delay =
      traces_up 32 0 (λ k. set_contrast (bit_or 0x80 (2 * k)) ++ delay step_delay ∷ [])
      ++ (traces_up 32 0 (λ k. set_contrast (bit_or 0x80 (63 - 2 * k)) ++ delay step_delay ∷ [])
          ++ set_contrast 0xBF)

  unfoldable pub reverse : List ℕ → ℕ → State → M State
  reverse text sp s = do rev ← lift (reversed text); scroll rev sp s

  unfoldable pub display_text : State → List ℕ → List ℕ → ℤ → M State
  display_text s text effect speed_ms =
      let sp = clamp_speed speed_ms in
      if same_text effect (codes "SCROLL")
      then scroll text sp s
      else if same_text effect (codes "BLINK")
      then (show_start text s >>= λ s'. emit (blink_loop sp) >> pure s')
      else if same_text effect (codes "REVERSE")
      then reverse text sp s
      else if same_text effect (codes "FADE")
      then (show_start text s >>= λ s'. emit (fade_loops (sp / 64 + 1)) >> pure s')
      else pure s
