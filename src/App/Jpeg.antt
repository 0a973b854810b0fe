-- ===== src/App/Jpeg.antt =====
-- app/jpeg_codec.h and .cpp: the pixels that are handed to the JPEG library, which is a parameter. An
-- `int` that overflows is undefined there, and exact here. `data` of a buffer is none where nothing is
-- mapped.
use minicam_hal.Common.{
  ℕ, zero, suc, ℤ, ◌+◌, ◌-◌, ◌*◌, ◌/◌, ◌%◌, pos, negsuc, min, ltb, Bool, false, ◌&&◌, not, Option,
  none, some, List, [], ◌∷◌, ◌++◌, if◌then◌else◌, is_empty, length, to_size, mul_size, ◌*ℤ◌,
  get_elem?,
}
use minicam_hal.Interface.{CaptureResult, no_payload, rgb24_payload, yuyv422_payload}
use minicam_hal.V4l2.{to_int}

-- The difference of two numbers, and the sum of two integers.
unfoldable pub sub_nat : ℕ → ℕ → ℤ
sub_nat a b = if ltb a b then negsuc (b - a - 1) else pos (a - b)

infixl 60 ◌+ℤ◌
unfoldable pub ◌+ℤ◌ : ℤ → ℤ → ℤ
unfolding sub_nat
pos a +ℤ pos b = pos (a + b)
pos a +ℤ negsuc b = sub_nat a (suc b)
negsuc a +ℤ pos b = sub_nat b (suc a)
negsuc a +ℤ negsuc b = negsuc (a + b + 1)

-- `>> 8`, which rounds down.
unfoldable pub shift_right : ℤ → ℤ
shift_right (pos n) = pos (n / 256)
shift_right (negsuc n) = negsuc (n / 256)

unfoldable pub clamp_to_byte : ℤ → ℕ
clamp_to_byte (pos n) = min n 255
clamp_to_byte (negsuc n) = 0

-- The three bytes of `write_pixel`.
unfoldable pub write_pixel : ℤ → ℤ → ℤ → List ℕ
unfolding clamp_to_byte shift_right
write_pixel u v y =
    let c = y +ℤ negsuc 15 in
    let luma = pos 298 *ℤ c in
    clamp_to_byte (shift_right (luma +ℤ pos 409 *ℤ v +ℤ pos 128))
    ∷ clamp_to_byte (shift_right (luma +ℤ negsuc 99 *ℤ u +ℤ negsuc 207 *ℤ v +ℤ pos 128))
    ∷ clamp_to_byte (shift_right (luma +ℤ pos 516 *ℤ u +ℤ pos 128))
    ∷ []

abbrev pub byte_at : List ℕ → ℕ → ℕ
byte_at bytes i = elim (get_elem? bytes i) [ none ↦ 0 | some b ↦ b ]

-- The loop of `append_yuyv_as_rgb`, from `i` on: two pixels for each four bytes. A round of fuel for
-- each round of the loop.
unfoldable pub append_from : ℕ → ℕ → List ℕ → List ℕ
append_from zero i yuyv = []
append_from (suc fuel) i yuyv =
    let rest = append_from fuel (i + 4) yuyv in
    let u = sub_nat (byte_at yuyv (i + 1)) 128 in
    let v = sub_nat (byte_at yuyv (i + 3)) 128 in
    if ltb (i + 3) (length yuyv)
    then write_pixel u v (pos (byte_at yuyv i))
      ++ (write_pixel u v (pos (byte_at yuyv (i + 2))) ++ rest)
    else []

-- What `append_yuyv_as_rgb` appends.
unfoldable pub append_yuyv_as_rgb : List ℕ → List ℕ
unfolding append_from
append_yuyv_as_rgb yuyv = append_from (length yuyv) 0 yuyv

abbrev pub positive : ℤ → Bool
positive (pos n) = ltb 0 n
positive (negsuc n) = false

-- The library's compressor: the capacity that it is given, width, height and pixels, and the bytes that
-- it writes.
abbrev pub Compressor : Type 0
Compressor = ℤ → ℤ → ℤ → List ℕ → Option (List ℕ)

abbrev pub take : ℕ → List ℕ → List ℕ
take zero xs = []
take (suc n) [] = []
take (suc n) (x ∷ xs) = x ∷ take n xs

module _ (jpge : Compressor) where
  unfoldable pub compress_rgb_to_jpeg : ℤ → ℤ → List ℕ → Option (List ℕ)
  unfolding to_int
  compress_rgb_to_jpeg width height rgb =
      if positive width && positive height && not (is_empty rgb)
      then (elim (jpge (to_int (length rgb + 1024)) width height rgb) [
        | none ↦ none
        | some bytes ↦ if is_empty bytes then none else some bytes
      ])
      else none

  unfoldable pub encode_jpeg : CaptureResult → List ℕ → Option (List ℕ)
  encode_jpeg result image =
      let rgb_size = mul_size (mul_size (to_size result.width) (to_size result.height)) 3 in
      if positive result.width && positive result.height && not (is_empty image)
      then (elim result.payload_format [
        | no_payload ↦ none
        | rgb24_payload ↦
            if ltb (length image) rgb_size
            then none
            else compress_rgb_to_jpeg result.width result.height (take rgb_size image)
        | yuyv422_payload ↦
            compress_rgb_to_jpeg result.width result.height (append_yuyv_as_rgb image)
      ])
      else none

-- A quotient of `int`, towards zero, for a divisor that is positive, and the byte of an `int`.
unfoldable pub quot : ℤ → ℕ → ℤ
unfolding sub_nat
quot (pos n) m = pos (n / m)
quot (negsuc n) m = sub_nat 0 (suc n / m)

unfoldable pub to_byte : ℤ → ℕ
to_byte (pos n) = n % 256
to_byte (negsuc n) = 255 - n % 256

abbrev abs_of : ℤ → ℕ
abs_of (pos n) = n
abs_of (negsuc n) = suc n

-- The picture without a buffer: the pixel, a row from `x` on, and rows from `y` on.
unfoldable pub synthetic_pixel : CaptureResult → ℕ → ℕ → List ℕ
unfolding quot to_byte to_int
synthetic_pixel result x y =
    let width = abs_of result.width in
    let height = abs_of result.height in
    to_byte (quot (pos (x * 255)) width)
    ∷ to_byte (quot (pos (y * 255)) height)
    ∷ to_byte (quot ((pos (x + y) +ℤ to_int result.frame_number) *ℤ pos 255) (width + height))
    ∷ []

unfoldable pub synthetic_row : CaptureResult → ℕ → ℕ → ℕ → List ℕ
synthetic_row result zero x y = []
synthetic_row result (suc n) x y = synthetic_pixel result x y ++ synthetic_row result n (x + 1) y

unfoldable pub synthetic_rows : CaptureResult → ℕ → ℕ → List ℕ
unfolding synthetic_row
synthetic_rows result zero y = []
synthetic_rows result (suc n) y =
    synthetic_row result (abs_of result.width) 0 y ++ synthetic_rows result n (y + 1)

unfoldable pub encode_synthetic_jpeg : Compressor → CaptureResult → Option (List ℕ)
unfolding synthetic_rows
encode_synthetic_jpeg jpge result =
    if positive result.width && positive result.height
    then compress_rgb_to_jpeg jpge result.width result.height
        (synthetic_rows result (abs_of result.height) 0)
    else none
