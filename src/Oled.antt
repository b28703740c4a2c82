-- ===== src/Oled.antt =====
-- The drivers of the paged monochrome panels. firmware/esp32/main/driver/{ssd1306,ssd1309,sh1106}.c and
-- their namesakes in firmware/pico/src/driver are one program over a `Panel`, which says how a
-- command and a page of the frame buffer reach the controller.
pub mod Visible
pub mod Spec
pub mod Laws
pub mod Timing
use textreaderrpi.Common.{
  ℕ, zero, suc, ◌+◌, ◌-◌, ◌*◌, ◌/◌, List, [], ◌∷◌, ◌++◌, Option, some, if◌then◌else◌, replicate,
}
use textreaderrpi.Common.Int.{ℤ}
use textreaderrpi.Common.Text.{codes, same_text}
use textreaderrpi.Machine.{M, Trace, pure, emit, lift, delay, ◌>>◌, ◌>>=◌, after}
use textreaderrpi.Driver.{clamp_speed}
use textreaderrpi.Driver.Loops.{traces_up}
use textreaderrpi.Driver.Reverse.{reversed}
use textreaderrpi.Bitmap
use textreaderrpi.Oled.Fill.{fill, load_page}
pub mod Fill

abbrev pub width : ℕ
width = 128

abbrev pub pages : ℕ
pages = 8

-- The size of the static buffer `bmp`.
abbrev pub bmp_size : ℕ
bmp_size = 1024

pub record Panel : Type 0 where
  pub cmd : ℕ → Trace
  -- What `flush` sends for one page: the page's number and its bytes.
  pub send_page : ℕ → List ℕ → Trace

-- The static arrays `s_fb` and `bmp`.
pub record State : Type 0 where
  pub s_fb : List ℕ
  pub bmp : List ℕ

unfoldable pub build_text_bitmap : List ℕ → List ℕ → Option (List ℕ × ℕ)
build_text_bitmap text out = Bitmap.build (bmp_size - 6) width bmp_size text out

module _ (panel : Panel) where
  open panel use {cmd, send_page}

  unfoldable pub flush_from : ℕ → ℕ → List ℕ → M (Unit {0})
  flush_from zero page fb = pure tt
  flush_from (suc n) page fb = do
    bytes ← lift (load_page fb page)
    emit (send_page page bytes)
    flush_from n (suc page) fb

  unfoldable pub flush : List ℕ → M (Unit {0})
  flush fb = flush_from pages 0 fb

  unfoldable pub display_clear : State → M State
  display_clear s = do
    flush (replicate (width * pages) 0)
    pure (record s { s_fb = replicate (width * pages) 0 })

  -- One frame: every page gets the columns from `offset` on, and all of them are sent.
  unfoldable pub show_at : List ℕ → ℕ → ℕ → List ℕ → M (List ℕ)
  show_at bmp bmp_len offset fb = do fb' ← lift (fill bmp bmp_len offset fb); flush fb'; pure fb'

  -- `for (offset = k; n rounds; offset++)`; `offset <= bmp_len - width` holds in
  -- `bmp_len + 1 - width` rounds.
  unfoldable pub scroll_from : ℕ → ℕ → List ℕ → ℕ → ℕ → List ℕ → M (List ℕ)
  scroll_from zero offset bmp bmp_len sp fb = pure fb
  scroll_from (suc n) offset bmp bmp_len sp fb = do
    fb' ← show_at bmp bmp_len offset fb
    emit (delay sp ∷ [])
    scroll_from n (suc offset) bmp bmp_len sp fb'

  unfoldable pub scroll : List ℕ → ℕ → State → M State
  scroll text sp s = do
    (bmp', bmp_len) ← lift (build_text_bitmap text s.bmp)
    fb ← scroll_from (bmp_len + 1 - width) 0 bmp' bmp_len sp s.s_fb
    pure (record { s_fb = fb; bmp = bmp' })

  unfoldable pub show_start : List ℕ → State → M State
  show_start text s = do
    (bmp', bmp_len) ← lift (build_text_bitmap text s.bmp)
    fb ← show_at bmp' bmp_len 0 s.s_fb
    pure (record { s_fb = fb; bmp = bmp' })

  unfoldable pub blink_loop : ℕ → Trace
  blink_loop sp = traces_up 6 0 (λ i. delay sp ∷ cmd 0xAE ++ (delay sp ∷ cmd 0xAF))

  unfoldable pub set_contrast : ℕ → Trace
  set_contrast v = cmd 0x81 ++ cmd v

  -- The two loops over `v`: 0, 8, ... 248 and 255, 247, ... 7.
  unfoldable pub fade_loops : ℕ → Trace
  fade_loops step_delay =
      traces_up 32 0 (λ k. set_contrast (8 * k) ++ delay step_delay ∷ [])
      ++ (traces_up 32 0 (λ k. set_contrast (255 - 8 * k) ++ delay step_delay ∷ [])
          ++ set_contrast 0xCF)

  unfoldable pub reverse : List ℕ → ℕ → State → M State
  reverse text sp s = do rev ← lift (reversed text); scroll rev sp s

  unfoldable pub display_text : State → List ℕ → List ℕ → ℤ → M State
  display_text s text effect speed_ms =
      let sp = clamp_speed speed_ms in
      if same_text effect (codes "SCROLL")
      then scroll text sp s
      else if same_text effect (codes "BLINK")
      then (show_start text s >>= λ s'. emit (blink_loop sp) >> pure s')
      else if same_text effect (codes "REVERSE")
      then reverse text sp s
      else if same_text effect (codes "FADE")
      then (show_start text s >>= λ s'. emit (fade_loops (sp / 32 + 1)) >> pure s')
      else pure s
