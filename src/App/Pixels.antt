-- ===== src/App/Pixels.antt =====
-- app/jpeg_codec.cpp: the colours that `append_yuyv_as_rgb` gives, against the formula of the conversion
-- in numbers that are never negative.
use minicam_hal.Common.{
  ℕ, zero, suc, pos, negsuc, negated, ◌*ℤ◌, ◌+◌, ◌-◌, ◌*◌, ◌/◌, ◌≡◌, ◌≤◌, ◌∙◌, ◌⊎◌, refl, ap, sym,
  subst, min, inl, inr, Bool-cases, ltb, arith, List, [], ◌∷◌, All, length,
}
use minicam_hal.App.Jpeg.{
  sub_nat, ◌+ℤ◌, shift_right, clamp_to_byte, write_pixel, byte_at, append_from, append_yuyv_as_rgb,
}

-- The colours of a pixel, from its Y, U and V; `-` stops at 0.
abbrev pub red : ℕ → ℕ → ℕ
red y v = min ((298 * y + 409 * v - 56992) / 256) 255

abbrev pub green : ℕ → ℕ → ℕ → ℕ
green y u v = min ((298 * y + 34784 - (100 * u + 208 * v)) / 256) 255

abbrev pub blue : ℕ → ℕ → ℕ
blue y u = min ((298 * y + 516 * u - 70688) / 256) 255

-- The bytes of `n` pixels, from pixel `k` on: each pixel has a Y of its own, and a U and a V with its
-- neighbour.
abbrev pub pixels : List ℕ → ℕ → ℕ → List ℕ
pixels yuyv k zero = []
pixels yuyv k (suc n) =
    let y = byte_at yuyv (2 * k) in
    let u = byte_at yuyv (4 * (k / 2) + 1) in
    let v = byte_at yuyv (4 * (k / 2) + 3) in
    red y v ∷ green y u v ∷ blue y u ∷ pixels yuyv (k + 1) n

add-sub_nat : (a b c d : ℕ) → sub_nat a b +ℤ sub_nat c d ≡ sub_nat (a + c) (b + d)
unfolding sub_nat ◌+ℤ◌
add-sub_nat a b c d = ground arith

add_128 : (a b : ℕ) → sub_nat a b +ℤ pos 128 ≡ sub_nat (a + 128) b
unfolding sub_nat ◌+ℤ◌
add_128 a b = ground arith

add-sub_pos : (b c : ℕ) → sub_nat (b + c) b ≡ pos c
unfolding sub_nat
add-sub_pos b c = ground arith

add-sub_neg : (a c : ℕ) → sub_nat a (a + c) ≡ negated c
unfolding sub_nat
add-sub_neg a zero = ground arith
add-sub_neg a (suc c) = ground arith

mul_add : (k a b : ℕ) → k * (a + b) ≡ k * a + k * b
mul_add k a b = grind arith

-- One number is the other and some more.
le-cases : (a b : ℕ) → ((c : ℕ) × (a ≡ b + c)) ⊎ ((c : ℕ) × (b ≡ a + suc c))
le-cases a b = elim (Bool-cases (ltb a b)) [
  | inl e ↦ inr (b - a - 1, ground arith)
  | inr e ↦ inl (a - b, ground arith)
]

mul-sub_nat : (k a b : ℕ) → pos k *ℤ sub_nat a b ≡ sub_nat (k * a) (k * b)
unfolding ◌*ℤ◌
mul-sub_nat k a b = elim (le-cases a b) [
  | inl (c, e) ↦ rw (e, add-sub_pos b c, mul_add k b c, add-sub_pos (k * b) (k * c)) refl
  | inr (c, e) ↦
      rw (e, add-sub_neg a (suc c), mul_add k a (suc c), add-sub_neg (k * a) (k * suc c)) refl
]

neg_mul-sub_nat : (k a b : ℕ) → negsuc k *ℤ sub_nat a b ≡ sub_nat (suc k * b) (suc k * a)
unfolding ◌*ℤ◌
neg_mul-sub_nat k a b = elim (le-cases a b) [
  | inl (c, e) ↦
      rw (e, add-sub_pos b c, mul_add (suc k) b c, add-sub_neg (suc k * b) (suc k * c)) refl
  | inr (c, e) ↦
      rw
        (
          e,
          add-sub_neg a (suc c),
          mul_add (suc k) a (suc c),
          add-sub_pos (suc k * a) (suc k * suc c),
        )
        refl
]

clamp-sub_nat : (a b : ℕ) → clamp_to_byte (shift_right (sub_nat a b)) ≡ min ((a - b) / 256) 255
unfolding sub_nat clamp_to_byte shift_right
clamp-sub_nat a b = ground arith

minus_16 : (y : ℕ) → pos y +ℤ negsuc 15 ≡ sub_nat y 16
unfolding ◌+ℤ◌
minus_16 y = refl

luma_lem : (y : ℕ) → pos 298 *ℤ (pos y +ℤ negsuc 15) ≡ sub_nat (298 * y) 4768
luma_lem y = rw (minus_16 y) (mul-sub_nat 298 y 16)

write_pixel_lem :
    (y u v : ℕ)
    → write_pixel (sub_nat u 128) (sub_nat v 128) (pos y) ≡ red y v ∷ green y u v ∷ blue y u ∷ []
unfolding write_pixel
write_pixel_lem y u v =
    rw
      (
        luma_lem y,
        mul-sub_nat 409 v 128,
        neg_mul-sub_nat 99 u 128,
        neg_mul-sub_nat 207 v 128,
        mul-sub_nat 516 u 128,
        add-sub_nat (298 * y) 4768 (409 * v) (409 * 128),
        add-sub_nat (298 * y) 4768 (100 * 128) (100 * u),
        add-sub_nat (298 * y + 100 * 128) (4768 + 100 * u) (208 * 128) (208 * v),
        add-sub_nat (298 * y) 4768 (516 * u) (516 * 128),
        add_128 (298 * y + 409 * v) (4768 + 409 * 128),
        add_128 (298 * y + 100 * 128 + 208 * 128) (4768 + 100 * u + 208 * v),
        add_128 (298 * y + 516 * u) (4768 + 516 * 128),
        clamp-sub_nat (298 * y + 409 * v + 128) (4768 + 409 * 128),
        clamp-sub_nat (298 * y + 100 * 128 + 208 * 128 + 128) (4768 + 100 * u + 208 * v),
        clamp-sub_nat (298 * y + 516 * u + 128) (4768 + 516 * 128),
      )
      (ground arith)

-- One round of the loop gives two pixels.
append_from-pixels :
    (fuel i j : ℕ) (yuyv : List ℕ)
    → i ≡ 4 * j
    → length yuyv ≤ i + fuel
    → append_from fuel i yuyv ≡ pixels yuyv (2 * j) (2 * (length yuyv / 4 - j))
unfolding append_from
append_from-pixels zero i j yuyv at enough =
    let none_left : 2 * (length yuyv / 4 - j) ≡ 0 = omega (arith, at, enough) in rw none_left refl
append_from-pixels (suc fuel) i j yuyv at enough = elim (Bool-cases (ltb (i + 3) (length yuyv))) [
  | inr e ↦
      let none_left : 2 * (length yuyv / 4 - j) ≡ 0 = ground (arith, at, e) in
      rw (e, none_left) refl
  | inl e ↦
      let more : 2 * (length yuyv / 4 - j) ≡ suc (suc (2 * (length yuyv / 4 - (j + 1)))) =
        ground (arith, at, e) in
      let ih =
        append_from-pixels fuel (i + 4) (j + 1) yuyv (omega (arith, at)) (omega (arith, enough)) in
      let y0 : 2 * (2 * j) ≡ i = omega (arith, at) in
      let y1 : 2 * (2 * j + 1) ≡ i + 2 = omega (arith, at) in
      let even : 4 * (2 * j / 2) ≡ i = omega (arith, at) in
      let odd : 4 * ((2 * j + 1) / 2) ≡ i = omega (arith, at) in
      let next : 2 * j + 1 + 1 ≡ 2 * (j + 1) = omega arith in
      rw
        (
          e,
          more,
          y0,
          y1,
          even,
          odd,
          next,
          ih,
          write_pixel_lem (byte_at yuyv i) (byte_at yuyv (i + 1)) (byte_at yuyv (i + 3)),
          write_pixel_lem (byte_at yuyv (i + 2)) (byte_at yuyv (i + 1)) (byte_at yuyv (i + 3)),
        )
        refl
]

pixels_bounds : (yuyv : List ℕ) (k n : ℕ) → All (λ b. b ≤ 255) (pixels yuyv k n)
pixels_bounds yuyv k zero = tt
pixels_bounds yuyv k (suc n) =
    (omega arith, (omega arith, (omega arith, pixels_bounds yuyv (k + 1) n)))

-- For any bytes, the conversion gives two pixels for each four bytes, in their order, and what is left
-- of them at the end gives none. Pixel `k` has its Y at byte `2 k`, and its U and V at bytes 1 and 3
-- of the four; its red, green and blue are those of the formula, rounded down to 256ths and kept
-- between 0 and 255, which every byte is.
pub append_yuyv-pixels :
    (yuyv : List ℕ)
    → (append_yuyv_as_rgb yuyv ≡ pixels yuyv 0 (2 * (length yuyv / 4)))
      × All (λ b. b ≤ 255) (append_yuyv_as_rgb yuyv)
unfolding append_yuyv_as_rgb
append_yuyv-pixels yuyv =
    let whole : length yuyv / 4 - 0 ≡ length yuyv / 4 = omega arith in
    let same =
      append_from-pixels (length yuyv) 0 0 yuyv (omega arith) (omega arith)
      ∙ ap (λ (n : ℕ). pixels yuyv 0 (2 * n)) whole in
    (same, subst (All (λ b. b ≤ 255)) (sym same) (pixels_bounds yuyv 0 (2 * (length yuyv / 4))))
