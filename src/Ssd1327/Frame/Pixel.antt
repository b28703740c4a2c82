-- ===== src/Ssd1327/Frame/Pixel.antt =====
-- The pixels of the frame buffer of the SSD1327.
use textreaderrpi.Common.{
  ℕ, zero, suc, ◌+◌, ◌*◌, ◌/◌, ◌%◌, ◌==◌, ◌<◌, ◌≡◌, ◌≢◌, ◌∙◌, refl, sym, ap, Bool-cases, inl, inr,
  List, some, length, get_or, if◌then◌else◌, arith, bit_and, bit_or, replicate, length-replicate,
  ==→≡, not_==→ne,
}
use textreaderrpi.Memory.Laws.{load_lem}
use textreaderrpi.Memory.Replace.{
  replaced, store-replaced, length-replaced, get_or-replaced, get_or-replaced_other, AllBelow,
  replaced-AllBelow, replicate-AllBelow,
}
use mathlib.Core.Path.{subst}
use textreaderrpi.Pixels.{rect, color_at}
use textreaderrpi.Pixels.Laws.{rect-Hits, rect-Misses, apart-Outside}
use textreaderrpi.Raster.Surface.{Surface}
use textreaderrpi.Ssd1327.Frame.{put_pixel}
use textreaderrpi.Ssd1327.Frame.Nibble.{low_lem, high_lem, right_lem, left_lem}

-- The nibble of a pixel: its brightness.
unfoldable pub pixel : List ℕ → (px py : ℕ) → ℕ
pixel fb px py = get_or fb (py * 64 + px / 2) 0 / (if px % 2 == 0 then 16 else 1) % 16

pub record IsFrame (fb : List ℕ) : Type 0 where
  pub size : length fb ≡ 8192
  pub bytes : AllBelow 256 fb

-- The byte in which a nibble is replaced.
abbrev pub byte : (brightness x b : ℕ) → ℕ
byte brightness x b =
    if x % 2 == 0 then brightness % 16 * 16 + b % 16 else b / 16 * 16 + brightness % 16

abbrev pub lit : (brightness x y : ℕ) → List ℕ → List ℕ
lit brightness x y fb =
    replaced fb (y * 64 + x / 2) (byte brightness x (get_or fb (y * 64 + x / 2) 0))

module _ (brightness : ℕ) (is_byte : brightness < 256) where
  byte_lem :
      (x b : ℕ)
      → b < 256
      → (if x % 2 == 0
          then bit_or (bit_and b 0x0F) (brightness * 16) % 256
          else bit_or (bit_and b 0xF0) (bit_and brightness 0x0F))
        ≡ byte brightness x b
  byte_lem x b h =
      rw
        (
          low_lem b h,
          high_lem b h,
          low_lem brightness is_byte,
          right_lem brightness (b % 16) is_byte (omega arith),
          left_lem (b / 16) (brightness % 16) (omega arith) (omega arith),
        )
        refl

  module _ (x y : ℕ) (fb : List ℕ) (on : x < 128) (below : y < 128) (frame : IsFrame fb) where
    pub put_pixel-lit : put_pixel brightness x y fb ≡ some (lit brightness x y fb)
    unfolding put_pixel
    put_pixel-lit =
        rw
          (
            load_lem fb (y * 64 + x / 2) (omega (arith, frame.size)),
            byte_lem x (get_or fb (y * 64 + x / 2) 0) (frame.bytes (y * 64 + x / 2)),
          )
          (store-replaced fb (y * 64 + x / 2) (byte brightness x (get_or fb (y * 64 + x / 2) 0))
            (omega (arith, frame.size)))

    byte-lt : (b : ℕ) → b < 256 → byte brightness x b < 256
    byte-lt b h = elim (Bool-cases (x % 2 == 0)) [
      | inl even ↦ rw even (omega arith)
      | inr odd ↦ rw odd (omega arith)
    ]

    pub lit-IsFrame : IsFrame (lit brightness x y fb)
    lit-IsFrame = record {
      size = length-replaced fb (y * 64 + x / 2) _ ∙ frame.size;
      bytes =
          replaced-AllBelow 256 fb (y * 64 + x / 2) _ (byte-lt _ (frame.bytes (y * 64 + x / 2)))
            frame.bytes;
    }

    hit_nibble :
        (p b : ℕ)
        → b < 256
        → byte brightness p b / (if p % 2 == 0 then 16 else 1) % 16 ≡ brightness % 16
    hit_nibble p b h = elim (Bool-cases (p % 2 == 0)) [
      | inl even ↦ rw even (omega arith)
      | inr odd ↦ rw odd (omega arith)
    ]

    kept_nibble :
        (px b : ℕ)
        → b < 256
        → x / 2 ≡ px / 2
        → x ≢ px
        → byte brightness x b / (if px % 2 == 0 then 16 else 1) % 16
          ≡ b / (if px % 2 == 0 then 16 else 1) % 16
    kept_nibble px b h same other = elim (Bool-cases (x % 2 == 0)) [
      | inl even ↦ elim (Bool-cases (px % 2 == 0)) [
        | inl p ↦
            (let a = ==→≡ (x % 2) 0 even in
              let c = ==→≡ (px % 2) 0 p in absurd (other (omega arith)))
        | inr p ↦ rw (even, p) (omega arith)
      ]
      | inr odd ↦ elim (Bool-cases (px % 2 == 0)) [
        | inl p ↦ rw (odd, p) (omega arith)
        | inr p ↦
            (let a = not_==→ne (x % 2) 0 odd in
              let c = not_==→ne (px % 2) 0 p in absurd (other (omega arith)))
      ]
    ]

    nibble_lem :
        (px b : ℕ)
        → b < 256
        → x / 2 ≡ px / 2
        → byte brightness x b / (if px % 2 == 0 then 16 else 1) % 16
          ≡ (if x == px then brightness % 16 else b / (if px % 2 == 0 then 16 else 1) % 16)
    nibble_lem px b h same = elim (Bool-cases (x == px)) [
      | inl here ↦ rw here (
          subst (λ p. byte brightness x b / (if p % 2 == 0 then 16 else 1) % 16 ≡ brightness % 16)
            (==→≡ x px here) (hit_nibble x b h))
      | inr other ↦ rw other (kept_nibble px b h same (not_==→ne x px other))
    ]

    same_byte :
        (px py : ℕ)
        → px < 128
        → py < 128
        → y * 64 + x / 2 ≡ py * 64 + px / 2
        → pixel (lit brightness x y fb) px py
          ≡ color_at (rect x y 1 1 (brightness % 16)) px py (pixel fb px py)
    unfolding pixel
    same_byte px py on' below' e =
        ap (λ i. get_or (lit brightness x y fb) i 0 / (if px % 2 == 0 then 16 else 1) % 16) (sym e)
        ∙ ap (λ b. b / (if px % 2 == 0 then 16 else 1) % 16)
            (get_or-replaced fb (y * 64 + x / 2) _ (omega (arith, frame.size)))
        ∙ nibble_lem px (get_or fb (y * 64 + x / 2) 0) (frame.bytes (y * 64 + x / 2)) (omega arith)
        ∙ elim (Bool-cases (x == px)) [
          | inl here ↦ rw here (
              let same = ==→≡ x px here in
              sym (
                rect-Hits px py x y 1 1 (brightness % 16) (omega arith) (omega arith) (omega arith)
                  (omega arith) (pixel fb px py)))
          | inr other ↦ rw other (
              ap (λ i. get_or fb i 0 / (if px % 2 == 0 then 16 else 1) % 16) e
              ∙ sym (
                  rect-Misses px py x y 1 1 (brightness % 16)
                    (apart-Outside x y px py (λ ex ey. not_==→ne x px other ex)) (pixel fb px py)))
        ]

    pub pixel-lit :
        (px py : ℕ)
        → px < 128
        → py < 128
        → pixel (lit brightness x y fb) px py
          ≡ color_at (rect x y 1 1 (brightness % 16)) px py (pixel fb px py)
    unfolding pixel
    pixel-lit px py on' below' = elim (Bool-cases (y * 64 + x / 2 == py * 64 + px / 2)) [
      | inr other ↦
          rw
            (get_or-replaced_other fb (y * 64 + x / 2) (py * 64 + px / 2)
              (byte brightness x (get_or fb (y * 64 + x / 2) 0))
              (not_==→ne (y * 64 + x / 2) (py * 64 + px / 2) other))
            (sym (
              rect-Misses px py x y 1 1 (brightness % 16)
                (apart-Outside x y px py
                  (λ ex ey. not_==→ne (y * 64 + x / 2) (py * 64 + px / 2) other (omega arith)))
                (pixel fb px py)))
      | inl same ↦ same_byte px py on' below' (==→≡ (y * 64 + x / 2) (py * 64 + px / 2) same)
    ]

  unfoldable pub surface : Surface 128 128 (brightness % 16) (put_pixel brightness)
  surface = record {
    IsValid = IsFrame;
    pixel = pixel;
    put_lem = λ x y fb on below frame. (
      lit brightness x y fb,
      put_pixel-lit x y fb on below frame,
      lit-IsFrame x y fb on below frame,
      pixel-lit x y fb on below frame,
    );
  }

pub black-IsFrame : IsFrame (replicate 8192 0)
black-IsFrame = record {
  size = length-replicate {A = ℕ} 8192 0;
  bytes = replicate-AllBelow 256 8192 0 (omega arith);
}

get_or-black : (n i : ℕ) → get_or (replicate {A = ℕ} n 0) i 0 ≡ 0
get_or-black zero i = refl
get_or-black (suc n) zero = refl
get_or-black (suc n) (suc i) = get_or-black n i

pub pixel-black : (px py : ℕ) → pixel (replicate 8192 0) px py ≡ 0
unfolding pixel
pixel-black px py =
    rw (get_or-black 8192 (py * 64 + px / 2))
      (elim (Bool-cases (px % 2 == 0)) [ inl even ↦ rw even refl | inr odd ↦ rw odd refl ])
