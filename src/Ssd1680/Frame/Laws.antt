-- ===== src/Ssd1680/Frame/Laws.antt =====
-- The pixels of the e-paper's frame buffer.
use textreaderrpi.Common.{
  [], ℕ, zero, suc, ◌+◌, ◌-◌, ◌*◌, ◌/◌, ◌%◌, ◌^◌, ◌==◌, ◌<◌, ◌≡◌, ◌∙◌, refl, sym, ap, true, Bool,
  Bool-cases, inl, inr, List, some, length, get_or, ltb, if◌then◌else◌, arith, le→leb, lt→not_leb,
  bit_and, replicate, length-replicate, all_below, all_below_lem, ==→≡, ltb→lt, not_==→ne,
}
use textreaderrpi.Common.Int.{pos, at_least, clip}
use textreaderrpi.Common.Int.Laws.{negated-minus}
use textreaderrpi.Memory.Laws.{load_lem}
use textreaderrpi.Memory.Replace.{
  replaced, store-replaced, length-replaced, get_or-replaced, get_or-replaced_other, AllBelow,
  replaced-AllBelow, replicate-AllBelow,
}
use textreaderrpi.Font.{text_columns}
use textreaderrpi.Pixels.{rect, color_at}
use textreaderrpi.Pixels.Laws.{rect-Hits, rect-Misses, apart-Outside}
use textreaderrpi.Raster.Dots.{dots, dot_color}
use textreaderrpi.Raster.Dots.Laws.{dots-dot_color}
use textreaderrpi.Raster.Laws.{put_text-Draws}
use textreaderrpi.Raster.Surface.{Surface}
use textreaderrpi.Ssd1680.Frame.{stride, set_pixel, render_text_to_fb}

-- The bit of a pixel: 1 is white.
unfoldable pub pixel : List ℕ → (px py : ℕ) → ℕ
pixel fb px py = get_or fb (py * stride + px / 8) 0 / 2 ^ (7 - px % 8) % 2

pub record IsFrame (fb : List ℕ) : Type 0 where
  pub size : length fb ≡ 3904
  pub bytes : AllBelow 256 fb

abbrev cleared_bit : (b i j : ℕ) → Bool
cleared_bit b i j = bit_and b (255 - 2 ^ i) / 2 ^ j % 2 == (if i == j then 0 else b / 2 ^ j % 2)

clear_table : all_below 256 (λ b. all_below 8 (λ i. all_below 8 (λ j. cleared_bit b i j))) ≡ true
clear_table = refl

clear_lem :
    (b i j : ℕ)
    → b < 256
    → i < 8
    → j < 8
    → bit_and b (255 - 2 ^ i) / 2 ^ j % 2 ≡ (if i == j then 0 else b / 2 ^ j % 2)
clear_lem b i j hb hi hj =
    ==→≡ (bit_and b (255 - 2 ^ i) / 2 ^ j % 2) (if i == j then 0 else b / 2 ^ j % 2) (
      all_below_lem 8 (λ j. cleared_bit b i j) j
        (all_below_lem 8 (λ i. all_below 8 (λ j. cleared_bit b i j)) i
          (all_below_lem 256 (λ b. all_below 8 (λ i. all_below 8 (λ j. cleared_bit b i j))) b
            clear_table hb)
          hi)
        hj)

byte_table : all_below 256 (λ b. all_below 8 (λ i. ltb (bit_and b (255 - 2 ^ i)) 256)) ≡ true
byte_table = refl

byte_lem : (b i : ℕ) → b < 256 → i < 8 → bit_and b (255 - 2 ^ i) < 256
byte_lem b i hb hi = ltb→lt (bit_and b (255 - 2 ^ i)) 256 (
    all_below_lem 8 (λ i. ltb (bit_and b (255 - 2 ^ i)) 256) i
      (all_below_lem 256 (λ b. all_below 8 (λ i. ltb (bit_and b (255 - 2 ^ i)) 256)) b byte_table
        hb)
      hi)

-- The buffer in which pixel `x`, `y` is black.
abbrev darkened : (x y : ℕ) → List ℕ → List ℕ
darkened x y fb =
    replaced fb (y * 32 + x / 8) (bit_and (get_or fb (y * 32 + x / 8) 0) (255 - 2 ^ (7 - x % 8)))

set_pixel-darkened :
    (x y : ℕ) (fb : List ℕ)
    → x < 250
    → y < 122
    → length fb ≡ 3904
    → set_pixel (pos x) y 1 fb ≡ some (darkened x y fb)
unfolding set_pixel at_least clip
set_pixel-darkened x y fb on below size =
    rw
      (
        le→leb 0 x (omega arith),
        lt→not_leb 250 x on,
        lt→not_leb 122 y below,
        load_lem fb (y * 32 + x / 8) (omega arith),
      )
      (store-replaced fb (y * 32 + x / 8)
        (bit_and (get_or fb (y * 32 + x / 8) 0) (255 - 2 ^ (7 - x % 8))) (omega arith))

module _ (x y : ℕ) (fb : List ℕ) (on : x < 250) (below : y < 122) (frame : IsFrame fb) where
  darkened-IsFrame : IsFrame (darkened x y fb)
  darkened-IsFrame = record {
    size = length-replaced fb (y * 32 + x / 8) _ ∙ frame.size;
    bytes =
        replaced-AllBelow 256 fb (y * 32 + x / 8) _
          (byte_lem _ (7 - x % 8) (frame.bytes (y * 32 + x / 8)) (omega arith)) frame.bytes;
  }

  same_byte :
      (px py : ℕ)
      → px < 250
      → py < 122
      → y * 32 + x / 8 ≡ py * 32 + px / 8
      → pixel (darkened x y fb) px py ≡ color_at (rect x y 1 1 0) px py (pixel fb px py)
  unfolding pixel
  same_byte px py on' below' e =
      ap (λ i. get_or (darkened x y fb) i 0 / 2 ^ (7 - px % 8) % 2) (sym e)
      ∙ ap (λ b. b / 2 ^ (7 - px % 8) % 2)
          (get_or-replaced fb (y * 32 + x / 8) _ (omega (arith, frame.size)))
      ∙ clear_lem (get_or fb (y * 32 + x / 8) 0) (7 - x % 8) (7 - px % 8)
          (frame.bytes (y * 32 + x / 8)) (omega arith) (omega arith)
      ∙ elim (Bool-cases (7 - x % 8 == 7 - px % 8)) [
        | inl here ↦ rw here (
            let same = ==→≡ (7 - x % 8) (7 - px % 8) here in
            sym (
              rect-Hits px py x y 1 1 0 (omega arith) (omega arith) (omega arith) (omega arith)
                (pixel fb px py)))
        | inr other ↦ rw other (
            ap (λ i. get_or fb i 0 / 2 ^ (7 - px % 8) % 2) e
            ∙ sym (
                rect-Misses px py x y 1 1 0
                  (apart-Outside x y px py
                    (λ ex ey. not_==→ne (7 - x % 8) (7 - px % 8) other (omega arith)))
                  (pixel fb px py)))
      ]

  pixel-darkened :
      (px py : ℕ)
      → px < 250
      → py < 122
      → pixel (darkened x y fb) px py ≡ color_at (rect x y 1 1 0) px py (pixel fb px py)
  unfolding pixel
  pixel-darkened px py on' below' = elim (Bool-cases (y * 32 + x / 8 == py * 32 + px / 8)) [
    | inr other ↦
        rw
          (get_or-replaced_other fb (y * 32 + x / 8) (py * 32 + px / 8)
            (bit_and (get_or fb (y * 32 + x / 8) 0) (255 - 2 ^ (7 - x % 8)))
            (not_==→ne (y * 32 + x / 8) (py * 32 + px / 8) other))
          (sym (
            rect-Misses px py x y 1 1 0
              (apart-Outside x y px py
                (λ ex ey. not_==→ne (y * 32 + x / 8) (py * 32 + px / 8) other (omega arith)))
              (pixel fb px py)))
    | inl same ↦ same_byte px py on' below' (==→≡ (y * 32 + x / 8) (py * 32 + px / 8) same)
  ]

-- The frame buffer as a surface on which black pixels are put.
surface : Surface 250 122 0 (λ x y fb. set_pixel (pos x) y 1 fb)
surface = record {
  IsValid = IsFrame;
  pixel = pixel;
  put_lem = λ x y fb on below frame. (
    darkened x y fb,
    set_pixel-darkened x y fb on below frame.size,
    darkened-IsFrame x y fb on below frame,
    pixel-darkened x y fb on below frame,
  );
}

white-IsFrame : IsFrame (replicate 3904 255)
white-IsFrame = record {
  size = length-replicate {A = ℕ} 3904 255;
  bytes = replicate-AllBelow 256 3904 255 (omega arith);
}

get_or-white : (n i : ℕ) → i < n → get_or (replicate {A = ℕ} n 255) i 0 ≡ 255
get_or-white zero i lt = absurd (omega arith)
get_or-white (suc n) zero lt = refl
get_or-white (suc n) (suc i) lt = get_or-white n i (omega arith)

white_table : all_below 8 (λ i. 255 / 2 ^ i % 2 == 1) ≡ true
white_table = refl

pixel-white : (px py : ℕ) → px < 250 → py < 122 → pixel (replicate 3904 255) px py ≡ 1
unfolding pixel
pixel-white px py on below =
    ap (λ b. b / 2 ^ (7 - px % 8) % 2) (get_or-white 3904 (py * 32 + px / 8) (omega arith))
    ∙ ==→≡ (255 / 2 ^ (7 - px % 8) % 2) 1
        (all_below_lem 8 (λ i. 255 / 2 ^ i % 2 == 1) (7 - px % 8) white_table (omega arith))

-- The frame shows a text from column `x_offset` on: black where a column of the text has a set bit,
-- in rows 8 to 15, and white everywhere else.
pub record Shows (fb text : List ℕ) (x_offset : ℕ) : Type 0 where
  pub size : length fb ≡ 3904
  pub pixels :
      (px py : ℕ)
      → px < 250
      → py < 122
      → pixel fb px py ≡ dot_color 8 0 1 (text_columns text) x_offset px py

-- For every text and offset, `render_text_to_fb` stays inside the frame buffer and leaves a frame
-- that shows the text from that offset on, pixel by pixel.
pub render_text_to_fb-Shows :
    (text : List ℕ) (x_offset : ℕ)
    → (fb : List ℕ) × (render_text_to_fb text x_offset ≡ some fb) × Shows fb text x_offset
unfolding render_text_to_fb surface
render_text_to_fb-Shows text x_offset =
    let drawn =
      put_text-Draws surface 8 (omega arith) x_offset true 0 text (replicate 3904 255)
        white-IsFrame in
    (
      drawn.0,
      rw (negated-minus x_offset) drawn.1,
      record {
        size = drawn.2.size;
        pixels = λ px py on below.
            drawn.3 px py on below
            ∙ ap (color_at (dots 250 8 0 x_offset 0 (text_columns text)) px py)
                (pixel-white px py on below)
            ∙ dots-dot_color 8 0 px py 250 x_offset (text_columns text) 1 on;
      },
    )

pub white-Shows : Shows (replicate 3904 255) [] 0
unfolding dots text_columns color_at
white-Shows = record {
  size = length-replicate {A = ℕ} 3904 255;
  pixels = λ px py on below.
      pixel-white px py on below ∙ dots-dot_color 8 0 px py 250 0 (text_columns []) 1 on;
}
