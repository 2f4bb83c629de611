-- ===== src/Hacker/Filler/Single.antt =====
-- Tier 1 of `bestFillerCombo` (hacker.algorithm.ts): the loop over single candidates.
use gusto_backend.Common.{
  ℕ, ◌≤◌, Option, none, some, List, [], ◌∷◌, ◌≡◌, sym, ◌⊎◌, inl, inr, arith, All, Any, ◌∙◌,
}
use gusto_backend.Hacker.Types.{FillerCandidate}
use gusto_backend.Hacker.Filler.{better_single, best_single}

abbrev pub Crosses : ℕ → Option FillerCandidate → Type 0
Crosses gap none = Unit
Crosses gap (some b) = gap ≤ b.price

-- The option holds a filler of at most this price.
abbrev pub AtMost : Option FillerCandidate → ℕ → Type 0
AtMost none n = ⊥
AtMost (some b) n = b.price ≤ n

module _ (gap : ℕ) where
  better_single-Crosses :
      (best : Option FillerCandidate) (c : FillerCandidate)
      → Crosses gap best
      → Crosses gap (better_single gap best c)
  better_single-Crosses none c h = ground arith
  better_single-Crosses (some b) c h = ground arith

  better_single-AtMost :
      (best : Option FillerCandidate) (c : FillerCandidate) (n : ℕ)
      → AtMost best n
      → AtMost (better_single gap best c) n
  better_single-AtMost none c n h = absurd h
  better_single-AtMost (some b) c n h = ground arith

  better_single-AtMost_new :
      (best : Option FillerCandidate) (c : FillerCandidate)
      → gap ≤ c.price
      → AtMost (better_single gap best c) c.price
  better_single-AtMost_new none c h = ground arith
  better_single-AtMost_new (some b) c h = ground arith

  better_single-origin :
      (best : Option FillerCandidate) (c : FillerCandidate)
      → (better_single gap best c ≡ best) ⊎ (better_single gap best c ≡ some c)
  better_single-origin none c = ground arith
  better_single-origin (some b) c = ground arith

  pub best_single-Crosses :
      (best : Option FillerCandidate) (cs : List FillerCandidate)
      → Crosses gap best
      → Crosses gap (best_single gap best cs)
  unfolding best_single
  best_single-Crosses best [] h = h
  best_single-Crosses best (c ∷ cs) h =
      best_single-Crosses (better_single gap best c) cs (better_single-Crosses best c h)

  best_single-AtMost :
      (best : Option FillerCandidate) (cs : List FillerCandidate) (n : ℕ)
      → AtMost best n
      → AtMost (best_single gap best cs) n
  unfolding best_single
  best_single-AtMost best [] n h = h
  best_single-AtMost best (c ∷ cs) n h =
      best_single-AtMost (better_single gap best c) cs n (better_single-AtMost best c n h)

  -- No candidate that crosses the gap is cheaper than the result.
  pub best_single-least :
      (best : Option FillerCandidate) (cs : List FillerCandidate)
      → All (λ c. gap ≤ c.price → AtMost (best_single gap best cs) c.price) cs
  unfolding best_single
  best_single-least best [] = tt
  best_single-least best (c ∷ cs) = (
    λ h.
        best_single-AtMost (better_single gap best c) cs c.price
          (better_single-AtMost_new best c h),
    best_single-least (better_single gap best c) cs,
  )

  pub best_single-origin :
      (best : Option FillerCandidate) (cs : List FillerCandidate) (b : FillerCandidate)
      → best_single gap best cs ≡ some b
      → (best ≡ some b) ⊎ Any (λ c. c ≡ b) cs
  unfolding best_single
  best_single-origin best [] b e = inl e
  best_single-origin best (c ∷ cs) b e =
      elim (best_single-origin (better_single gap best c) cs b e) [
        | inl kept ↦ elim (better_single-origin best c) [
          | inl same ↦ inl (sym same ∙ kept)
          | inr new ↦ inr (inl (cc (sym new ∙ kept)))
        ]
        | inr there ↦ inr (inr there)
      ]
