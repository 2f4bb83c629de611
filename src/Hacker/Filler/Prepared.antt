-- ===== src/Hacker/Filler/Prepared.antt =====
-- `prepareFillerCandidates` of hacker.algorithm.ts, and the filler search on its result.
use gusto_backend.Common.{
  ℕ, zero, suc, ◌≤◌, ◌<◌, String, true, false, List, [], ◌∷◌, ◌++◌, ◌≡◌, ◌≢◌, refl, sym, inl, inr,
  arith, length, All, Any, str_eq_iff, Bool-cases,
}
use gusto_backend.Common.Int.{ℤ, pos, ◌≤ℤ◌}
use gusto_backend.Hacker.Types.{FillerCandidate}
use gusto_backend.Hacker.Sorting.{
  insert_sorted, sort_by, insert_sorted-All, sort_by-All, sort_by-Any, IsSortedBy,
  sort_by-IsSortedBy,
}
use gusto_backend.Hacker.Filler.{
  contains, dedupe, cheaper_first, prepare_filler_candidates, price_at, best_filler_combo,
}
use gusto_backend.Hacker.Filler.Pairs.{Ascends}
use gusto_backend.Hacker.Filler.Best.{IsBestCombo, best_filler_combo-IsBestCombo}

-- In stock, with a positive price that the budget left after the base cost can pay.
abbrev pub IsUsable : ℤ → FillerCandidate → Type 0
IsUsable affordable c = (c.in_stock ≡ true) × (0 < c.price) × (pos c.price ≤ℤ affordable)

-- No two candidates share an id.
abbrev pub Distinct : List FillerCandidate → Type 0
Distinct [] = Unit
Distinct (c ∷ cs) = All (λ d. c.item_id ≢ d.item_id) cs × Distinct cs

abbrev pub Cheaper : FillerCandidate → FillerCandidate → Type 0
Cheaper a b = a.price ≤ b.price

abbrev pub InOrder : List FillerCandidate → Type 0
InOrder = IsSortedBy Cheaper

module _ (affordable : ℤ) where
  dedupe-IsUsable :
      (seen : List String) (cs : List FillerCandidate)
      → All (IsUsable affordable) (dedupe affordable seen cs)
  unfolding dedupe
  dedupe-IsUsable seen [] = tt
  dedupe-IsUsable seen (c ∷ cs) =
      ground (arith, dedupe-IsUsable seen cs, dedupe-IsUsable (c.item_id ∷ seen) cs)

  -- What is kept was not seen before.
  dedupe-unseen :
      (id : String) (seen : List String) (cs : List FillerCandidate)
      → contains seen id ≡ true
      → All (λ d. id ≢ d.item_id) (dedupe affordable seen cs)
  unfolding dedupe
  dedupe-unseen id seen [] h = tt
  dedupe-unseen id seen (c ∷ cs) h = ground (
    arith,
    str_eq_iff c.item_id id,
    dedupe-unseen id seen cs h,
    dedupe-unseen id (c.item_id ∷ seen) cs,
  )

  dedupe-Distinct :
      (seen : List String) (cs : List FillerCandidate) → Distinct (dedupe affordable seen cs)
  unfolding dedupe
  dedupe-Distinct seen [] = tt
  dedupe-Distinct seen (c ∷ cs) = ground (
    arith,
    str_eq_iff c.item_id c.item_id,
    dedupe-unseen c.item_id (c.item_id ∷ seen) cs,
    dedupe-Distinct seen cs,
    dedupe-Distinct (c.item_id ∷ seen) cs,
  )

module _ (affordable : ℤ) (c : FillerCandidate) (ys : List FillerCandidate) where
  -- The first occurrence of an id that was not seen is kept, if it is usable.
  dedupe_keeps :
      (seen : List String) (xs : List FillerCandidate)
      → contains seen c.item_id ≡ false
      → All (λ d. d.item_id ≢ c.item_id) xs
      → IsUsable affordable c
      → Any (λ d. d ≡ c) (dedupe affordable seen (xs ++ c ∷ ys))
  unfolding dedupe
  dedupe_keeps seen [] u h ok = ground arith
  dedupe_keeps seen (x ∷ xs) u h ok = ground (
    arith,
    str_eq_iff x.item_id c.item_id,
    dedupe_keeps seen xs u h.1 ok,
    dedupe_keeps (x.item_id ∷ seen) xs,
  )

insert_sorted-Distinct :
    (c : FillerCandidate) (cs : List FillerCandidate)
    → All (λ d. c.item_id ≢ d.item_id) cs
    → Distinct cs
    → Distinct (insert_sorted cheaper_first c cs)
unfolding insert_sorted
insert_sorted-Distinct c [] h d = (tt, tt)
insert_sorted-Distinct c (x ∷ xs) h d = elim (Bool-cases (cheaper_first c x)) [
  | inl e ↦ rw (e, insert_sorted) (h, d)
  | inr e ↦
      rw (e, insert_sorted)
        (
          insert_sorted-All cheaper_first (λ y. x.item_id ≢ y.item_id) c xs (λ p. h.0 (sym p)) d.0,
          insert_sorted-Distinct c xs h.1 d.1,
        )
]

sort_by-Distinct : (cs : List FillerCandidate) → Distinct cs → Distinct (sort_by cheaper_first cs)
unfolding sort_by
sort_by-Distinct [] d = tt
sort_by-Distinct (c ∷ cs) d =
    insert_sorted-Distinct c (sort_by cheaper_first cs) (sort_by-All cheaper_first _ cs d.0)
      (sort_by-Distinct cs d.1)

price_at-least :
    (x : FillerCandidate) (cs : List FillerCandidate) (j : ℕ)
    → All (Cheaper x) cs
    → j < length cs
    → x.price ≤ price_at cs j
price_at-least x [] j h l = elim l [ ]
price_at-least x (c ∷ cs) zero h l = h.0
price_at-least x (c ∷ cs) (suc j) h l = price_at-least x cs j h.1 (omega arith)

InOrder-Ascends : (cs : List FillerCandidate) → InOrder cs → Ascends cs
InOrder-Ascends [] s i j ij l = elim l [ ]
InOrder-Ascends (c ∷ cs) s zero zero ij l = omega arith
InOrder-Ascends (c ∷ cs) s zero (suc j) ij l = price_at-least c cs j s.0 (omega arith)
InOrder-Ascends (c ∷ cs) s (suc i) zero ij l = absurd (omega arith)
InOrder-Ascends (c ∷ cs) s (suc i) (suc j) ij l =
    InOrder-Ascends cs s.1 i j (omega arith) (omega arith)

module _ (candidates : List FillerCandidate) (affordable : ℤ) where
  -- The prepared candidates are all in stock, of a positive price that the rest of the budget can
  -- pay, with no id twice, and in ascending order of price.
  pub prepare_filler_candidates_ready :
      let cs = prepare_filler_candidates candidates affordable in
      All (IsUsable affordable) cs × Distinct cs × Ascends cs
  unfolding prepare_filler_candidates
  prepare_filler_candidates_ready = (
    sort_by-All cheaper_first (IsUsable affordable) _ (dedupe-IsUsable affordable [] candidates),
    sort_by-Distinct _ (dedupe-Distinct affordable [] candidates),
    InOrder-Ascends _ (
        sort_by-IsSortedBy cheaper_first Cheaper (λ x y e. ground arith) (λ x y e. ground arith)
          (λ x y z p q. omega arith) (dedupe affordable [] candidates)),
  )

  -- Nothing is lost: a usable candidate is among the prepared ones if no candidate before it in the
  -- input has its id.
  prepare_filler_candidates_keeps :
      (c : FillerCandidate) (xs ys : List FillerCandidate)
      → candidates ≡ xs ++ c ∷ ys
      → All (λ d. d.item_id ≢ c.item_id) xs
      → IsUsable affordable c
      → Any (λ d. d ≡ c) (prepare_filler_candidates candidates affordable)
  unfolding prepare_filler_candidates
  prepare_filler_candidates_keeps c xs ys e h ok =
      rw e (sort_by-Any cheaper_first (λ d. d ≡ c) _ (dedupe_keeps affordable c ys [] xs refl h ok))

  -- For every gap the search over the prepared candidates returns the cheapest single one that
  -- crosses the gap; if no single one does, the cheapest pair that does; and nothing only if no
  -- single candidate and no pair crosses it.
  pub filler_search_optimal :
      (gap : ℕ)
      → let cs = prepare_filler_candidates candidates affordable in
        IsBestCombo gap cs (best_filler_combo gap cs)
  filler_search_optimal gap = best_filler_combo-IsBestCombo gap _ prepare_filler_candidates_ready.2
