-- ===== src/Hacker/Filler.antt =====
-- The filler search of hacker.algorithm.ts: `prepareFillerCandidates` and `bestFillerCombo`.
pub mod Single
pub mod Pairs
pub mod Best
pub mod Prepared
use gusto_backend.Common.{
  ℕ, zero, suc, ◌+◌, ◌-◌, String, Bool, true, false, not, ◌&&◌, ◌||◌, Option, none, some, List, [],
  ◌∷◌, ltb, leb, ◌==◌, str_eq, if◌then◌else◌, length, get_elem?,
}
use gusto_backend.Common.Int.{ℤ, pos, ltb_ℤ}
use gusto_backend.Hacker.Types.{FillerCandidate, Combo}
use gusto_backend.Hacker.Sorting.{sort_by}

-- `seen.has(id)`
abbrev pub contains : List String → String → Bool
contains [] id = false
contains (x ∷ xs) id = str_eq x id || contains xs id

-- The tests of the dedupe loop behind the `seen` test.
abbrev pub is_usable : ℤ → FillerCandidate → Bool
is_usable affordable c = c.in_stock && (not (leb c.price 0) && not (ltb_ℤ affordable (pos c.price)))

-- The loop of `prepareFillerCandidates`: the first occurrence of an id decides for it.
unfoldable pub dedupe : ℤ → List String → List FillerCandidate → List FillerCandidate
dedupe affordable seen [] = []
dedupe affordable seen (c ∷ cs) =
    let skipped = dedupe affordable seen cs in
    let rest = dedupe affordable (c.item_id ∷ seen) cs in
    if contains seen c.item_id then skipped else if is_usable affordable c then c ∷ rest else rest

abbrev pub cheaper_first : FillerCandidate → FillerCandidate → Bool
cheaper_first a b = leb a.price b.price

unfoldable pub prepare_filler_candidates : List FillerCandidate → ℤ → List FillerCandidate
unfolding dedupe sort_by
prepare_filler_candidates candidates affordable =
    sort_by cheaper_first (dedupe affordable [] candidates)

-- `FILLER_TIEBREAK_CATEGORIES.has(category ?? "")`
abbrev pub is_preferred : Option String → Bool
is_preferred none = false
is_preferred (some c) = str_eq c "side" || (str_eq c "beverage" || str_eq c "dessert")

-- One round of the first tier, on the best filler so far.
abbrev pub better_single : ℕ → Option FillerCandidate → FillerCandidate → Option FillerCandidate
better_single gap none c = if ltb c.price gap then none else some c
better_single gap (some b) c =
    if ltb c.price gap
    then some b
    else if ltb c.price b.price
    then some c
    else if c.price == b.price && (is_preferred c.category && not (is_preferred b.category))
    then some c
    else some b

-- Tier 1: the cheapest single filler that crosses the gap.
unfoldable pub best_single :
    ℕ → Option FillerCandidate → List FillerCandidate → Option FillerCandidate
best_single gap best [] = best
best_single gap best (c ∷ cs) = best_single gap (better_single gap best c) cs

-- `candidates[i].price` and `candidates[i].itemId`, read at indices in range only.
abbrev pub price_at : List FillerCandidate → ℕ → ℕ
price_at cs i = elim (get_elem? cs i) [ none ↦ 0 | some c ↦ c.price ]

abbrev pub id_at : List FillerCandidate → ℕ → String
id_at cs i = elim (get_elem? cs i) [ none ↦ "" | some c ↦ c.item_id ]

abbrev pub improves : ℕ → Option Combo → Bool
improves sum none = true
improves sum (some best) = ltb sum best.total_price

-- The pair at two indices.
abbrev pub pair_at : List FillerCandidate → ℕ → ℕ → Combo
pair_at cs i j = record {
  item_ids = id_at cs i ∷ id_at cs j ∷ [];
  total_price = price_at cs i + price_at cs j;
}

-- Tier 2, the `while (i < j)`: each round brings the indices one step together, so as many rounds as
-- there are candidates are enough. `j` starts at `length - 1`, which is 0 here for no candidate;
-- the test fails there as it does at -1.
unfoldable pub two_pointer :
    (fuel gap : ℕ) → List FillerCandidate → (i j : ℕ) → Option Combo → Option Combo
two_pointer zero gap cs i j best = best
two_pointer (suc fuel) gap cs i j best = elim (ltb i j) [
  | false ↦ best
  | true ↦ elim (leb gap (price_at cs i + price_at cs j)) [
    | true ↦
        two_pointer fuel gap cs i (j - 1)
          (if improves (price_at cs i + price_at cs j) best then some (pair_at cs i j) else best)
    | false ↦ two_pointer fuel gap cs (i + 1) j best
  ]
]

unfoldable pub best_filler_combo : ℕ → List FillerCandidate → Option Combo
unfolding best_single two_pointer
best_filler_combo gap candidates = elim (best_single gap none candidates) [
  | some b ↦ some (record { item_ids = b.item_id ∷ []; total_price = b.price })
  | none ↦ two_pointer (length candidates) gap candidates 0 (length candidates - 1) none
]
