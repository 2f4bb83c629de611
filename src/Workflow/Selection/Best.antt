-- ===== src/Workflow/Selection/Best.antt =====
-- `selectNextCandidate` of workflow.service.ts against a description of the best proposal.
use gusto_backend.Common.{
  ◌≤◌, String, Option, none, some, List, [], ◌∷◌, ◌≡◌, arith, ◌⊎◌, inl, inr, leb→le, leb-gt, All,
  Any, Option-cases, if◌then◌else◌,
}
use gusto_backend.Hacker.Filler.{contains}
use gusto_backend.Hacker.Sorting.{
  sort_by, IsSortedBy, sort_by-IsSortedBy, sort_by-All_back, sort_by-Any_back,
}
use gusto_backend.Workflow.Selection.{
  MenuItem, RankedMenuItem, menu_by_id, better_first, first_eligible, select_next_candidate,
}

-- The item that a ranked item stands for, unless it was rejected.
abbrev pub offered : List MenuItem → List String → RankedMenuItem → Option MenuItem
offered menu rejected r = if contains rejected r.item_id then none else menu_by_id menu r.item_id

-- No ranked item that is offered scores more than `r`.
abbrev pub IsBestOffered :
    List MenuItem → List String → List RankedMenuItem → RankedMenuItem → Type 0
IsBestOffered menu rejected ranked r =
    All (λ (q : RankedMenuItem). (offered menu rejected q ≡ none) ⊎ (q.match_score ≤ r.match_score))
      ranked

module _ (menu : List MenuItem) (rejected : List String) where
  abbrev NoMore : RankedMenuItem → RankedMenuItem → Type 0
  NoMore r q = q.match_score ≤ r.match_score

  All-bounded :
      (r : RankedMenuItem) (l : List RankedMenuItem)
      → All (NoMore r) l
      → IsBestOffered menu rejected l r
  All-bounded r [] h = tt
  All-bounded r (q ∷ l) h = (inr h.0, All-bounded r l h.1)

  abbrev Found : List RankedMenuItem → MenuItem → Type 0
  Found l item =
      Any (λ r. (offered menu rejected r ≡ some item) × IsBestOffered menu rejected l r) l

  weaken :
      (l k : List RankedMenuItem) (item : MenuItem) (q : RankedMenuItem)
      → offered menu rejected q ≡ none
      → Any (λ r. (offered menu rejected r ≡ some item) × IsBestOffered menu rejected k r) l
      → Any (λ r. (offered menu rejected r ≡ some item) × IsBestOffered menu rejected (q ∷ k) r) l
  weaken [] k item q e h = elim h [ ]
  weaken (r ∷ l) k item q e (inl h) = inl (h.0, (inl e, h.1))
  weaken (r ∷ l) k item q e (inr h) = inr (weaken l k item q e h)

  first_eligible-Found :
      (l : List RankedMenuItem) (item : MenuItem)
      → IsSortedBy NoMore l
      → first_eligible menu rejected l ≡ some item
      → Found l item
  unfolding first_eligible
  first_eligible-Found [] item o h = ground arith
  first_eligible-Found (r ∷ l) item o h = elim (Option-cases (offered menu rejected r)) [
    | inl e ↦ inr (weaken l l item r e (first_eligible-Found l item o.1 (ground arith)))
    | inr (found, e) ↦ inl (ground arith, (inr (omega arith), All-bounded r l o.0))
  ]

  first_eligible-none :
      (l : List RankedMenuItem)
      → first_eligible menu rejected l ≡ none
      → All (λ q. offered menu rejected q ≡ none) l
  unfolding first_eligible
  first_eligible-none [] h = tt
  first_eligible-none (r ∷ l) h = (ground arith, first_eligible-none l (ground arith))

  -- The bound of the sorted list is one of the list.
  unsorted :
      (ranked l : List RankedMenuItem) (item : MenuItem)
      → Any
          (λ r.
            (offered menu rejected r ≡ some item)
            × IsBestOffered menu rejected (sort_by better_first ranked) r)
          l
      → Any (λ r. (offered menu rejected r ≡ some item) × IsBestOffered menu rejected ranked r) l
  unsorted ranked [] item h = elim h [ ]
  unsorted ranked (r ∷ l) item (inl h) = inl (h.0, sort_by-All_back better_first _ ranked h.1)
  unsorted ranked (r ∷ l) item (inr h) = inr (unsorted ranked l item h)

sorted :
    (ranked : List RankedMenuItem)
    → IsSortedBy (λ r q. q.match_score ≤ r.match_score) (sort_by better_first ranked)
sorted =
    sort_by-IsSortedBy better_first (λ r q. q.match_score ≤ r.match_score)
      (λ x y e. leb→le y.match_score x.match_score e)
      (λ x y e. ground (arith, leb-gt y.match_score x.match_score e))
      (λ x y z h k. omega (arith, h, k))

-- The proposal is what a ranked item stands for that was not rejected and is on the menu, and no
-- ranked item of that kind scores more.
pub select_next_candidate_best :
    (menu : List MenuItem) (ranked : List RankedMenuItem) (rejected : List String) (item : MenuItem)
    → select_next_candidate menu ranked rejected ≡ some item
    → Any (λ r. (offered menu rejected r ≡ some item) × IsBestOffered menu rejected ranked r) ranked
unfolding select_next_candidate
select_next_candidate_best menu ranked rejected item h = unsorted menu rejected ranked ranked item (
    sort_by-Any_back better_first _ ranked
      (first_eligible-Found menu rejected (sort_by better_first ranked) item (sorted ranked) h))

-- There is no proposal only if every ranked item was rejected or is not on the menu.
select_next_candidate-none :
    (menu : List MenuItem) (ranked : List RankedMenuItem) (rejected : List String)
    → select_next_candidate menu ranked rejected ≡ none
    → All (λ r. offered menu rejected r ≡ none) ranked
unfolding select_next_candidate
select_next_candidate-none menu ranked rejected h =
    sort_by-All_back better_first _ ranked
      (first_eligible-none menu rejected (sort_by better_first ranked) h)
