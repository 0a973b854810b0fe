-- ===== src/Common/Maps.antt =====
-- `std::unordered_map` with a `uint64_t` key, as an association list with distinct keys. The order
-- of the list stands for the unspecified order of iteration.
use minicam_hal.Common.Tests.{◌==◌, if◌then◌else◌, Bool-cases}
use minicam_hal.Common.Lists.{count}
use Prim.Native.Nat.{ℕ, ◌≤◌}
use mathlib.Core.Path.{◌≡◌, refl}
use mathlib.Core.Logic.{inl, inr}
use mathlib.Core.Bool.{Bool, true, false}
use mathlib.Core.List.{List, [], ◌∷◌}
use mathlib.Core.Option.{Option, none, some}
use native.Mathlib.Omega.{arith}

abbrev pub Map {ℓ} : Type ℓ → Type ℓ
Map V = List (ℕ × V)

module _ {ℓ} {V : Type ℓ} where
  unfoldable pub find : ℕ → Map V → Option V
  find k [] = none
  find k ((j, v) ∷ m) = if j == k then some v else find k m

  unfoldable pub contains : ℕ → Map V → Bool
  unfolding find
  contains k m = elim (find k m) [ none ↦ false | some _ ↦ true ]

  unfoldable pub erase : ℕ → Map V → Map V
  erase k [] = []
  erase k ((j, v) ∷ m) = let rest = erase k m in if j == k then rest else (j, v) ∷ rest

  -- Writes through an iterator to the value at the key.
  unfoldable pub assign : ℕ → V → Map V → Map V
  assign k v [] = []
  assign k v ((j, w) ∷ m) =
      let rest = assign k v m in if j == k then (j, v) ∷ rest else (j, w) ∷ rest

  -- `emplace`: nothing is inserted if the key is taken.
  unfoldable pub emplace : ℕ → V → Map V → Map V
  unfolding contains
  emplace k v m = if contains k m then m else (k, v) ∷ m

  -- Erases the entries whose value passes the test.
  unfoldable pub erase_if : (V → Bool) → Map V → Map V
  erase_if p [] = []
  erase_if p ((j, v) ∷ m) = let rest = erase_if p m in if p v then rest else (j, v) ∷ rest

  abbrev pub keys : Map V → List ℕ
  keys [] = []
  keys ((j, v) ∷ m) = j ∷ keys m

  -- No key twice.
  abbrev pub Distinct : Map V → Type 0
  Distinct [] = Unit
  Distinct ((j, v) ∷ m) = (count j (keys m) ≡ 0) × Distinct m

  -- Every entry satisfies a predicate.
  abbrev pub AllEntries : (ℕ → V → Type 0) → Map V → Type 0
  AllEntries P [] = Unit
  AllEntries P ((j, v) ∷ m) = P j v × AllEntries P m

  pub find-erase : (k j : ℕ) (m : Map V) → find j (erase k m) ≡ (if k == j then none else find j m)
  unfolding find erase
  find-erase k j [] = ground arith
  find-erase k j ((i, v) ∷ m) = ground (arith, find-erase k j m)

  pub find-erase_self : (k : ℕ) (m : Map V) → find k (erase k m) ≡ none
  find-erase_self k m = ground (arith, find-erase k k m)

  pub find-emplace :
      (k j : ℕ) (v : V) (m : Map V)
      → find k m ≡ none
      → find j (emplace k v m) ≡ (if k == j then some v else find j m)
  unfolding emplace find
  find-emplace k j v m h = ground (arith, h)

  pub find-assign :
      (k j : ℕ) (v w : V) (m : Map V)
      → find k m ≡ some w
      → find j (assign k v m) ≡ (if k == j then some v else find j m)
  unfolding find assign
  find-assign k j v w [] h = cc
  find-assign k j v w ((i, u) ∷ m) h = elim (Bool-cases (i == k)) [
    | inl e ↦ elim (Bool-cases (k == j)) [
      | inl f ↦ ground arith
      | inr f ↦ ground (arith, find-assign_other m)
    ]
    | inr e ↦ ground (arith, find-assign k j v w m)
  ]
    where
      find-assign_other : (l : Map V) → (k == j) ≡ false → find j (assign k v l) ≡ find j l
      find-assign_other [] f = refl
      find-assign_other ((x, y) ∷ l) f = ground (arith, find-assign_other l f)

  pub count-find : (k : ℕ) (m : Map V) → find k m ≡ none → count k (keys m) ≡ 0
  unfolding find
  count-find k [] h = refl
  count-find k ((j, v) ∷ m) h = ground (arith, count-find k m)

  pub find-count : (k : ℕ) (m : Map V) → count k (keys m) ≡ 0 → find k m ≡ none
  unfolding find
  find-count k [] h = refl
  find-count k ((j, v) ∷ m) h = ground (arith, find-count k m)

  count-keys-erase :
      (k j : ℕ) (m : Map V) → count j (keys (erase k m)) ≡ (if k == j then 0 else count j (keys m))
  unfolding erase
  count-keys-erase k j [] = ground arith
  count-keys-erase k j ((i, v) ∷ m) = ground (arith, count-keys-erase k j m)

  keys-assign : (k : ℕ) (v : V) (m : Map V) → keys (assign k v m) ≡ keys m
  unfolding assign
  keys-assign k v [] = refl
  keys-assign k v ((i, w) ∷ m) = ground (arith, keys-assign k v m)

  count-keys-erase_if :
      (p : V → Bool) (j : ℕ) (m : Map V) → count j (keys (erase_if p m)) ≤ count j (keys m)
  unfolding erase_if
  count-keys-erase_if p j [] = omega arith
  count-keys-erase_if p j ((i, v) ∷ m) = ground (arith, count-keys-erase_if p j m)

  -- A key of a map with distinct keys stands there once.
  pub count-Distinct :
      (k : ℕ) (v : V) (m : Map V) → Distinct m → find k m ≡ some v → count k (keys m) ≡ 1
  unfolding find
  count-Distinct k v [] d h = cc
  count-Distinct k v ((i, w) ∷ m) d h = ground (arith, count-Distinct k v m d.1)

  pub erase-Distinct : (k : ℕ) (m : Map V) → Distinct m → Distinct (erase k m)
  unfolding erase
  erase-Distinct k [] d = tt
  erase-Distinct k ((i, v) ∷ m) d = ground (arith, erase-Distinct k m d.1, count-keys-erase k i m)

  pub erase_if-Distinct : (p : V → Bool) (m : Map V) → Distinct m → Distinct (erase_if p m)
  unfolding erase_if
  erase_if-Distinct p [] d = tt
  erase_if-Distinct p ((i, v) ∷ m) d =
      ground (arith, erase_if-Distinct p m d.1, count-keys-erase_if p i m)

  pub assign-Distinct : (k : ℕ) (v : V) (m : Map V) → Distinct m → Distinct (assign k v m)
  unfolding assign
  assign-Distinct k v [] d = tt
  assign-Distinct k v ((i, w) ∷ m) d = ground (arith, assign-Distinct k v m d.1, keys-assign k v m)

  pub emplace-Distinct : (k : ℕ) (v : V) (m : Map V) → Distinct m → Distinct (emplace k v m)
  unfolding emplace contains
  emplace-Distinct k v m d = ground (arith, count-find k m)

  module _ (P : ℕ → V → Type 0) where
    pub erase-AllEntries : (k : ℕ) (m : Map V) → AllEntries P m → AllEntries P (erase k m)
    unfolding erase
    erase-AllEntries k [] h = tt
    erase-AllEntries k ((i, v) ∷ m) h = ground (arith, erase-AllEntries k m h.1)

    pub erase_if-AllEntries :
        (p : V → Bool) (m : Map V) → AllEntries P m → AllEntries P (erase_if p m)
    unfolding erase_if
    erase_if-AllEntries p [] h = tt
    erase_if-AllEntries p ((i, v) ∷ m) h = ground (arith, erase_if-AllEntries p m h.1)

    pub assign-AllEntries :
        (k : ℕ) (v : V) (m : Map V) → P k v → AllEntries P m → AllEntries P (assign k v m)
    unfolding assign
    assign-AllEntries k v [] p h = tt
    assign-AllEntries k v ((i, w) ∷ m) p h = elim (Bool-cases (i == k)) [
      | inl e ↦ ground (arith, assign-AllEntries k v m p h.1)
      | inr e ↦ ground (arith, assign-AllEntries k v m p h.1)
    ]

    pub find-AllEntries : (k : ℕ) (v : V) (m : Map V) → AllEntries P m → find k m ≡ some v → P k v
    unfolding find
    find-AllEntries k v [] h e = cc
    find-AllEntries k v ((i, w) ∷ m) h e = ground (arith, find-AllEntries k v m h.1)
