-- ===== src/Hacker/Filler/Best.antt =====
-- `bestFillerCombo` of hacker.algorithm.ts against a description of the best combination.
use gusto_backend.Common.{
  ℕ, ◌-◌, ◌≤◌, ◌<◌, Option, none, some, List, [], ◌∷◌, ◌≡◌, refl, subst, ◌⊎◌, inl, inr, arith,
  length, All, Any, Option-cases,
}
use gusto_backend.Hacker.Types.{FillerCandidate, Combo}
use gusto_backend.Hacker.Filler.{best_single, two_pointer, best_filler_combo}
use gusto_backend.Hacker.Filler.Single.{
  Crosses, AtMost, best_single-Crosses, best_single-least, best_single-origin,
}
use gusto_backend.Hacker.Filler.Pairs.{
  Within, sum_at, Ascends, IsPair, two_pointer-least, two_pointer-IsPair,
}

-- No single candidate crosses the gap.
abbrev pub NoSingle : ℕ → List FillerCandidate → Type 0
NoSingle gap cs = All (λ c. c.price < gap) cs

-- The combination of one candidate: one that crosses the gap, and none that does is cheaper.
abbrev pub IsBestSingle : ℕ → List FillerCandidate → Combo → Type 0
IsBestSingle gap cs combo =
    (f : FillerCandidate) × Any (λ c. c ≡ f) cs
    × (combo ≡ record { item_ids = f.item_id ∷ []; total_price = f.price })
    × (gap ≤ f.price)
    × All (λ c. gap ≤ c.price → f.price ≤ c.price) cs

-- The combination of two candidates at different places, chosen only if no single one crosses the
-- gap: it crosses the gap, and no pair that does is cheaper.
abbrev pub IsBestPair : ℕ → List FillerCandidate → Combo → Type 0
IsBestPair gap cs combo =
    NoSingle gap cs
    × IsPair gap cs combo
    × ((a b : ℕ) → a < b → b < length cs → gap ≤ sum_at cs a b → combo.total_price ≤ sum_at cs a b)

-- What the search owes for each of its results.
abbrev pub IsBestCombo : ℕ → List FillerCandidate → Option Combo → Type 0
IsBestCombo gap cs none =
    NoSingle gap cs × ((a b : ℕ) → a < b → b < length cs → sum_at cs a b < gap)
IsBestCombo gap cs (some combo) = IsBestSingle gap cs combo ⊎ IsBestPair gap cs combo

NoSingle-of_none :
    (gap : ℕ) (cs ds : List FillerCandidate)
    → best_single gap none ds ≡ none
    → All (λ c. gap ≤ c.price → AtMost (best_single gap none ds) c.price) cs
    → NoSingle gap cs
NoSingle-of_none gap [] ds e h = tt
NoSingle-of_none gap (c ∷ cs) ds e h = (ground (arith, h.0), NoSingle-of_none gap cs ds e h.1)

least_of_some :
    (gap : ℕ) (cs : List FillerCandidate) (o : Option FillerCandidate) (f : FillerCandidate)
    → o ≡ some f
    → All (λ c. gap ≤ c.price → AtMost o c.price) cs
    → All (λ c. gap ≤ c.price → f.price ≤ c.price) cs
least_of_some gap cs o f e h = rw e at h

module _ (gap : ℕ) (cs : List FillerCandidate) (up : Ascends cs) where
  pairs : Option Combo
  pairs = two_pointer (length cs) gap cs 0 (length cs - 1) none

  pairs-least :
      (a b : ℕ) → a < b → b < length cs → gap ≤ sum_at cs a b → Within pairs (sum_at cs a b)
  unfolding pairs
  pairs-least a b ab bl g =
      two_pointer-least gap cs up (length cs) 0 (length cs - 1) none a b (omega arith) (omega arith)
        (omega arith) ab (omega arith) g

  pairs-IsBestCombo : NoSingle gap cs → (o : Option Combo) → pairs ≡ o → IsBestCombo gap cs o
  unfolding pairs
  pairs-IsBestCombo no_one none e = (
    no_one,
    λ a b ab bl.
        let least : gap ≤ sum_at cs a b → Within none (sum_at cs a b) =
          subst (λ p. gap ≤ sum_at cs a b → Within p (sum_at cs a b)) e (pairs-least a b ab bl) in
        ground (arith, least),
  )
  pairs-IsBestCombo no_one (some c) e = inr (
    no_one,
    found (two_pointer-IsPair gap cs (length cs) 0 (length cs - 1) none c (omega arith) e),
    λ a b ab bl g. subst (λ p. Within p (sum_at cs a b)) e (pairs-least a b ab bl g),
  )
    where
      found : (none ≡ some c) ⊎ IsPair gap cs c → IsPair gap cs c
      found (inl absent) = cc
      found (inr pair) = pair

  -- On candidates in ascending order the search returns a best combination, or nothing when there is
  -- none.
  pub best_filler_combo-IsBestCombo : IsBestCombo gap cs (best_filler_combo gap cs)
  unfolding best_filler_combo pairs
  best_filler_combo-IsBestCombo = elim (Option-cases (best_single gap none cs)) [
    | inl e ↦
        rw (e, best_filler_combo)
          (pairs-IsBestCombo (NoSingle-of_none gap cs cs e (best_single-least gap none cs)) pairs
            refl)
    | inr (f, e) ↦
        rw (e, best_filler_combo)
          (inl (
            f,
            from_list f (best_single-origin gap none cs f e),
            refl,
            subst (Crosses gap) e (best_single-Crosses gap none cs tt),
            least_of_some gap cs (best_single gap none cs) f e (best_single-least gap none cs),
          ))
  ]
    where
      from_list :
          (f : FillerCandidate) → (none ≡ some f) ⊎ Any (λ c. c ≡ f) cs → Any (λ c. c ≡ f) cs
      from_list f (inl absent) = cc
      from_list f (inr there) = there
