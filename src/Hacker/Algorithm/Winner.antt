-- ===== src/Hacker/Algorithm/Winner.antt =====
-- `selectWinner` and the loop over the coupons.
use gusto_backend.Common.{
  String, Bool, true, false, none, some, List, [], ◌∷◌, ◌++◌, ◌≡◌, refl, subst, ◌∙◌, inl, inr,
  arith, All, Any, Bool-cases, Option-cases, map,
}
use mathlib.Core.List.{append-nil, append_assoc}
use gusto_backend.Common.Int.{ℤ, ◌≤ℤ◌, int_laws}
use gusto_backend.Hacker.Types.{Coupon, LogEntry, Contender}
use gusto_backend.Hacker.Sorting.{
  insert_sorted, sort_by, first, IsSortedBy, sort_by-IsSortedBy, sort_by-All_back, sort_by-Any_back,
}
use gusto_backend.Hacker.Algorithm.{
  Outcome, push, run_coupons, compare_contenders, not_behind, select_winner,
}

abbrev pub NoDearer : Contender → Contender → Type 0
NoDearer a b = a.total ≤ℤ b.total

first_least :
    (l : List Contender) (w : Contender)
    → IsSortedBy NoDearer l
    → first l ≡ some w
    → All (NoDearer w) l × Any (λ c. c ≡ w) l
first_least [] w s e = cc
first_least (c ∷ l) w s e =
    let same : c ≡ w = cc in
    (
      (subst (λ x. NoDearer x c) same (omega arith), subst (λ x. All (NoDearer x) l) same s.0),
      inl same,
    )

insert_first :
    (before : Contender → Contender → Bool) (c : Contender) (l : List Contender)
    → (w : Contender) × (first (insert_sorted before c l) ≡ some w)
unfolding insert_sorted
insert_first before c [] = (c, refl)
insert_first before c (x ∷ l) = elim (Bool-cases (before c x)) [
  | inl e ↦ (c, rw (e, insert_sorted))
  | inr e ↦ (x, rw (e, insert_sorted))
]

module _ (locale_compare : String → String → ℤ) where
  not_behind-NoDearer : (a b : Contender) → not_behind locale_compare a b ≡ true → NoDearer a b
  unfolding compare_contenders
  not_behind-NoDearer a b h = grind int_laws

  behind-NoDearer : (a b : Contender) → not_behind locale_compare a b ≡ false → NoDearer b a
  unfolding compare_contenders
  behind-NoDearer a b h = grind int_laws

  -- The winner is one of the contenders, and none of them is cheaper.
  pub select_winner_least :
      (l : List Contender) (w : Contender)
      → select_winner locale_compare l ≡ some w
      → All (NoDearer w) l × Any (λ c. c ≡ w) l
  unfolding select_winner
  select_winner_least l w e =
      let (least, there) =
        first_least (sort_by (not_behind locale_compare) l) w
          (sort_by-IsSortedBy (not_behind locale_compare) NoDearer not_behind-NoDearer
            behind-NoDearer (λ x y z p q. omega arith) l)
          e in
      (
        sort_by-All_back (not_behind locale_compare) (NoDearer w) l least,
        sort_by-Any_back (not_behind locale_compare) (λ c. c ≡ w) l there,
      )

  -- A list with a contender has a winner.
  pub select_winner-some :
      (c : Contender) (l : List Contender)
      → (w : Contender) × (select_winner locale_compare (c ∷ l) ≡ some w)
  unfolding select_winner
  select_winner-some c l =
      insert_first (not_behind locale_compare) c (sort_by (not_behind locale_compare) l)

-- The contenders of some coupons, in order.
abbrev pub gather : (Coupon → Outcome) → List Coupon → List Contender
gather step [] = []
gather step (c ∷ cs) = elim (step c).contender [
  | none ↦ gather step cs
  | some x ↦ x ∷ gather step cs
]

-- The loop logs each coupon once, in order, and adds the contenders behind those that it had.
pub run_coupons_lem :
    (step : Coupon → Outcome) (cs : List Coupon) (log : List LogEntry) (contenders : List Contender)
    → run_coupons step cs log contenders
      ≡ (log ++ map (λ c. (step c).entry) cs, contenders ++ gather step cs)
unfolding run_coupons
run_coupons_lem step [] log contenders = simp append-nil
run_coupons_lem step (c ∷ cs) log contenders = elim (Option-cases (step c).contender) [
  | inl e ↦
      rw (e, push, gather)
        (run_coupons_lem step cs (log ++ (step c).entry ∷ []) contenders ∙ simp append_assoc)
  | inr (x, e) ↦
      rw (e, push, gather)
        (run_coupons_lem step cs (log ++ (step c).entry ∷ []) (contenders ++ x ∷ [])
          ∙ simp append_assoc)
]
