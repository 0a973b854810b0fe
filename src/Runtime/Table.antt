-- ===== src/Runtime/Table.antt =====
-- `std::unordered_map` with an `int` key, as an association list with distinct keys.
use minicam_hal.Common.{
  ℤ, ◌==ℤ◌, ==ℤ_iff, Option, none, some, List, [], ◌∷◌, ◌≡◌, arith, if◌then◌else◌,
}

abbrev pub Table {ℓ} : Type ℓ → Type ℓ
Table V = List (ℤ × V)

module _ {ℓ} {V : Type ℓ} where
  unfoldable pub lookup : ℤ → Table V → Option V
  lookup k [] = none
  lookup k ((j, v) ∷ m) = if j ==ℤ k then some v else lookup k m

  unfoldable pub remove : ℤ → Table V → Table V
  remove k [] = []
  remove k ((j, v) ∷ m) = let rest = remove k m in if j ==ℤ k then rest else (j, v) ∷ rest

  -- `m[k] = v`.
  unfoldable pub put : ℤ → V → Table V → Table V
  put k v m = (k, v) ∷ remove k m

  pub lookup-remove :
      (k j : ℤ) (m : Table V) → lookup j (remove k m) ≡ (if k ==ℤ j then none else lookup j m)
  unfolding lookup remove
  lookup-remove k j [] = ground arith
  lookup-remove k j ((i, v) ∷ m) = ground (
    arith,
    lookup-remove k j m,
    (==ℤ_iff i k).0,
    (==ℤ_iff i j).0,
    (==ℤ_iff k j).0,
    (==ℤ_iff i k).1,
    (==ℤ_iff i j).1,
    (==ℤ_iff k j).1,
  )

  pub lookup-put :
      (k j : ℤ) (v : V) (m : Table V)
      → lookup j (put k v m) ≡ (if k ==ℤ j then some v else lookup j m)
  unfolding lookup put
  lookup-put k j v m = ground (arith, lookup-remove k j m)
