-- ===== src/Hacker/Algorithm/Optimal/Run.antt =====
-- The run over the coupons of hacker.algorithm.ts, step by step.
use gusto_backend.Common.{
  some, List, [], ◌∷◌, map, ◌≡◌, refl, ap, ◌∙◌, subst, ◌⊎◌, inl, inr, arith, All, Any, Option-cases,
}
use gusto_backend.Common.Int.{ℤ, ◌≤ℤ◌}
use gusto_backend.Hacker.Types.{Coupon, accepted, Contender}
use gusto_backend.Hacker.Algorithm.{Outcome}
use gusto_backend.Hacker.Algorithm.Winner.{gather}
use gusto_backend.Hacker.Algorithm.Coupons.{IsLogged}

module _ (step : Coupon → Outcome) where
  -- A coupon of the list whose outcome is the contender.
  abbrev pub Earns : (Coupon → Outcome → Contender → Type 0) → List Coupon → Contender → Type 0
  Earns P cs x = Any (λ c. ((step c).contender ≡ some x) × P c (step c) x) cs

  pub gather-Earns :
      (P : Coupon → Outcome → Contender → Type 0) (cs : List Coupon) (x : Contender)
      → ((c : Coupon) → (step c).contender ≡ some x → P c (step c) x)
      → Any (λ y. y ≡ x) (gather step cs)
      → Earns P cs x
  gather-Earns P [] x h there = there
  gather-Earns P (c ∷ cs) x h there = elim (Option-cases (step c).contender) [
    | inl e ↦ inr (gather-Earns P cs x h (rw (e, gather) at there))
    | inr (y, e) ↦
        let split : (y ≡ x) ⊎ Any (λ z. z ≡ x) (gather step cs) = rw (e, gather) at there in
        elim split [
          | inl same ↦ inl (e ∙ ap some same, h c (e ∙ ap some same))
          | inr rest ↦ inr (gather-Earns P cs x h rest)
        ]
  ]

  -- What holds of all contenders holds of each coupon's.
  pub gather-All :
      (P : Contender → Type 0) (cs : List Coupon)
      → All P (gather step cs)
      → All (λ c. (x : Contender) → (step c).contender ≡ some x → P x) cs
  gather-All P [] h = tt
  gather-All P (c ∷ cs) h = elim (Option-cases (step c).contender) [
    | inl e ↦ (λ x f. ground arith, gather-All P cs (rw (e, gather) at h))
    | inr (y, e) ↦
        let split : P y × All P (gather step cs) = rw (e, gather) at h in
        (λ x f. subst P (cc) split.0, gather-All P cs split.1)
  ]

module _ (step : Coupon → Outcome) (logged : (c : Coupon) → IsLogged c (step c)) where
  pub log_codes :
      (cs : List Coupon)
      → map (λ l. l.coupon_code) (map (λ c. (step c).entry) cs) ≡ map (λ c. c.code) cs
  log_codes [] = refl
  log_codes (c ∷ cs) = cc ((logged c).0, log_codes cs)

  pub log_least :
      (t : ℤ) (cs : List Coupon)
      → All (λ c. (x : Contender) → (step c).contender ≡ some x → t ≤ℤ x.total) cs
      → All
          (λ l. l.reason ≡ accepted → (u : ℤ) × (l.computed_total ≡ some u) × (t ≤ℤ u))
          (map (λ c. (step c).entry) cs)
  log_least t [] h = tt
  log_least t (c ∷ cs) h = (
    λ a. let (x, earned, shown) = (logged c).1 a in (x.total, shown, h.0 x earned),
    log_least t cs h.1,
  )
