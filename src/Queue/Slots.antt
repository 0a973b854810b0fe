-- ===== src/Queue/Slots.antt =====
-- Positions of a ring: two positions less than a lap apart stand in the same slot only if they are one.
use native.Mathlib.Nat.{mod-add-div, mul-le-mul_left, mul-suc}
use minicam_hal.Common.{
  ℕ, suc, ◌+◌, ◌*◌, ◌/◌, ◌%◌, ◌≡◌, ◌≤◌, ◌<◌, arith, inl, inr, Bool-cases, leb, inc64, ◌^◌,
}

pub same_slot : (c a b : ℕ) → a ≤ b → b < a + c → a % c ≡ b % c → a ≡ b
same_slot c a b low high e = elim (Bool-cases (leb (b / c) (a / c))) [
  | inl h ↦
      let below : b / c ≤ a / c = ground (arith, h) in
      let lap : c * (b / c) ≤ c * (a / c) = mul-le-mul_left c below in
      omega (arith, mod-add-div a c, mod-add-div b c, lap, low, e)
  | inr h ↦
      let more : suc (a / c) ≤ b / c = ground (arith, h) in
      let lap : c * suc (a / c) ≤ c * (b / c) = mul-le-mul_left c more in
      let next : c * suc (a / c) ≡ c * (a / c) + c = mul-suc c (a / c) in
      omega (arith, mod-add-div a c, mod-add-div b c, lap, next, high, e)
]

pub inc64_lem : (n : ℕ) → n + 1 < 2 ^ 64 → inc64 n ≡ n + 1
unfolding inc64
inc64_lem n h = omega arith
