-- ===== src/Hacker/Filler/Pairs.antt =====
-- Tier 2 of `bestFillerCombo` (hacker.algorithm.ts): the two pointers.
use gusto_backend.Common.{
  ℕ, zero, suc, ◌+◌, ◌-◌, ◌≤◌, ◌<◌, Option, none, some, List, ◌≡◌, refl, ◌⊎◌, inl, inr, arith,
  length, ltb, leb, if◌then◌else◌, Bool-cases,
}
use gusto_backend.Hacker.Types.{FillerCandidate, Combo}
use gusto_backend.Hacker.Filler.{price_at, pair_at, improves, two_pointer}

-- The option holds a combination of at most this price.
abbrev pub Within : Option Combo → ℕ → Type 0
Within none n = ⊥
Within (some c) n = c.total_price ≤ n

abbrev pub sum_at : List FillerCandidate → ℕ → ℕ → ℕ
sum_at cs i j = price_at cs i + price_at cs j

-- Prices ascend along the indices in range.
abbrev pub Ascends : List FillerCandidate → Type 0
Ascends cs = (i j : ℕ) → i ≤ j → j < length cs → price_at cs i ≤ price_at cs j

abbrev improved : List FillerCandidate → ℕ → ℕ → Option Combo → Option Combo
improved cs i j best = if improves (sum_at cs i j) best then some (pair_at cs i j) else best

improved-Within :
    (cs : List FillerCandidate) (i j : ℕ) (best : Option Combo)
    → Within (improved cs i j best) (sum_at cs i j)
improved-Within cs i j none = omega arith
improved-Within cs i j (some b) = ground arith

improved-keeps :
    (cs : List FillerCandidate) (i j n : ℕ) (best : Option Combo)
    → Within best n
    → Within (improved cs i j best) n
improved-keeps cs i j n none h = absurd h
improved-keeps cs i j n (some b) h = ground arith

improved-origin :
    (cs : List FillerCandidate) (i j : ℕ) (best : Option Combo)
    → (improved cs i j best ≡ best) ⊎ (improved cs i j best ≡ some (pair_at cs i j))
improved-origin cs i j none = inr refl
improved-origin cs i j (some b) = ground arith

module _ (gap : ℕ) (cs : List FillerCandidate) where
  two_pointer-keeps :
      (fuel i j n : ℕ) (best : Option Combo)
      → Within best n
      → Within (two_pointer fuel gap cs i j best) n
  unfolding two_pointer
  two_pointer-keeps zero i j n best h = h
  two_pointer-keeps (suc fuel) i j n best h = ground (
    arith,
    two_pointer-keeps fuel i (j - 1) n (improved cs i j best) (improved-keeps cs i j n best h),
    two_pointer-keeps fuel (i + 1) j n best h,
  )

  -- No pair between the pointers that crosses the gap is cheaper than the result.
  pub two_pointer-least :
      Ascends cs
      → (fuel i j : ℕ) (best : Option Combo) (a b : ℕ) → j ≤ i + fuel
      → j < length cs
      → i ≤ a
      → a < b
      → b ≤ j
      → gap ≤ sum_at cs a b
      → Within (two_pointer fuel gap cs i j best) (sum_at cs a b)
  unfolding two_pointer
  two_pointer-least up zero i j best a b f len ia ab bj g = absurd (omega arith)
  two_pointer-least up (suc fuel) i j best a b f len ia ab bj g = ground (
    arith,
    up i a ia (omega arith),
    up b j bj len,
    improved-Within cs i j best,
    two_pointer-keeps fuel i (j - 1) (sum_at cs a b) (improved cs i j best),
    two_pointer-least up fuel i (j - 1) (improved cs i j best) a b,
    two_pointer-least up fuel (i + 1) j best a b,
  )

  -- A pair of two candidates in range that crosses the gap.
  abbrev pub IsPair : Combo → Type 0
  IsPair c = (a b : ℕ) × (a < b) × (b < length cs) × (gap ≤ sum_at cs a b) × (c ≡ pair_at cs a b)

  pub two_pointer-IsPair :
      (fuel i j : ℕ) (best : Option Combo) (c : Combo)
      → j < length cs ⊎ (i ≡ j)
      → two_pointer fuel gap cs i j best ≡ some c
      → (best ≡ some c) ⊎ IsPair c
  unfolding two_pointer
  two_pointer-IsPair zero i j best c len e = inl e
  two_pointer-IsPair (suc fuel) i j best c len e = elim (Bool-cases (ltb i j)) [
    | inr stop ↦ inl (ground arith)
    | inl more ↦ elim (Bool-cases (leb gap (sum_at cs i j))) [
      | inr low ↦ two_pointer-IsPair fuel (i + 1) j best c (inl (ground arith)) (ground arith)
      | inl high ↦
          elim (two_pointer-IsPair fuel i (j - 1) (improved cs i j best) c (inl (ground arith))
            (ground arith)) [
              | inr pair ↦ inr pair
              | inl kept ↦ elim (improved-origin cs i j best) [
                | inl same ↦ inl (cc)
                | inr new ↦ inr (i, j, ground arith, ground arith, ground arith, ground arith)
              ]
            ]
    ]
  ]
