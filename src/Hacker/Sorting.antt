-- ===== src/Hacker/Sorting.antt =====
-- `Array.prototype.sort` with a comparator, which is stable: a stable insertion sort. `before x y`
-- says that the comparator does not put `x` behind `y`.
use gusto_backend.Common.{
  Bool, true, false, List, [], ◌∷◌, ◌≡◌, ◌⊎◌, inl, inr, arith, if◌then◌else◌, All, Any, Bool-cases,
  Option, none, some,
}

module _ {A : Type 0} (before : A → A → Bool) where
  unfoldable pub insert_sorted : A → List A → List A
  insert_sorted x [] = x ∷ []
  insert_sorted x (y ∷ ys) = if before x y then x ∷ y ∷ ys else y ∷ insert_sorted x ys

  unfoldable pub sort_by : List A → List A
  unfolding insert_sorted
  sort_by [] = []
  sort_by (x ∷ xs) = insert_sorted x (sort_by xs)

-- `sorted[0]`
abbrev pub first : {A : Type 0} → List A → Option A
first [] = none
first (x ∷ xs) = some x

module _ {A : Type 0} (before : A → A → Bool) (P : A → Type 0) where
  pub insert_sorted-All : (x : A) (l : List A) → P x → All P l → All P (insert_sorted before x l)
  unfolding insert_sorted
  insert_sorted-All x [] px h = (px, tt)
  insert_sorted-All x (y ∷ ys) px h = ground (arith, insert_sorted-All x ys px h.1)

  pub sort_by-All : (l : List A) → All P l → All P (sort_by before l)
  unfolding sort_by
  sort_by-All [] h = tt
  sort_by-All (x ∷ xs) h = insert_sorted-All x (sort_by before xs) h.0 (sort_by-All xs h.1)

  -- Whatever holds of the sorted list held of the list.
  pub insert_sorted-All_back :
      (x : A) (l : List A) → All P (insert_sorted before x l) → P x × All P l
  unfolding insert_sorted
  insert_sorted-All_back x [] h = h
  insert_sorted-All_back x (y ∷ ys) h = elim (Bool-cases (before x y)) [
    | inl e ↦ rw (e, insert_sorted) at h
    | inr e ↦
        let split : P y × All P (insert_sorted before x ys) = rw (e, insert_sorted) at h in
        let back = insert_sorted-All_back x ys split.1 in (back.0, (split.0, back.1))
  ]

  pub sort_by-All_back : (l : List A) → All P (sort_by before l) → All P l
  unfolding sort_by
  sort_by-All_back [] h = tt
  sort_by-All_back (x ∷ xs) h =
      let back = insert_sorted-All_back x (sort_by before xs) h in
      (back.0, sort_by-All_back xs back.1)

-- Every element stands in `R` to all behind it.
abbrev pub IsSortedBy : {A : Type 0} → (A → A → Type 0) → List A → Type 0
IsSortedBy R [] = Unit
IsSortedBy R (x ∷ xs) = All (R x) xs × IsSortedBy R xs

-- The order in which the sort leaves a list, by a relation that the comparator decides and that is transitive.
module _ {A : Type 0} (before : A → A → Bool) (R : A → A → Type 0)
    (sound : (x y : A) → before x y ≡ true → R x y) (other : (x y : A) → before x y ≡ false → R y x)
    (trans : (x y z : A) → R x y → R y z → R x z) where
  All-weaken : (x y : A) (l : List A) → R x y → All (R y) l → All (R x) l
  All-weaken x y [] r h = tt
  All-weaken x y (z ∷ l) r h = (trans x y z r h.0, All-weaken x y l r h.1)

  insert_sorted-IsSortedBy :
      (x : A) (l : List A) → IsSortedBy R l → IsSortedBy R (insert_sorted before x l)
  unfolding insert_sorted
  insert_sorted-IsSortedBy x [] h = (tt, tt)
  insert_sorted-IsSortedBy x (y ∷ ys) h = elim (Bool-cases (before x y)) [
    | inl e ↦ rw (e, insert_sorted) (((sound x y e), All-weaken x y ys (sound x y e) h.0), h)
    | inr e ↦
        rw (e, insert_sorted)
          (insert_sorted-All before (R y) x ys (other x y e) h.0, insert_sorted-IsSortedBy x ys h.1)
  ]

  pub sort_by-IsSortedBy : (l : List A) → IsSortedBy R (sort_by before l)
  unfolding sort_by
  sort_by-IsSortedBy [] = tt
  sort_by-IsSortedBy (x ∷ xs) =
      insert_sorted-IsSortedBy x (sort_by before xs) (sort_by-IsSortedBy xs)

module _ {A : Type 0} (before : A → A → Bool) (P : A → Type 0) where
  insert_sorted-Any : (x : A) (l : List A) → P x ⊎ Any P l → Any P (insert_sorted before x l)
  unfolding insert_sorted
  insert_sorted-Any x [] h = h
  insert_sorted-Any x (y ∷ ys) h = elim (Bool-cases (before x y)) [
    | inl e ↦ rw (e, insert_sorted) h
    | inr e ↦
        rw (e, insert_sorted)
          (elim h [
            | inl px ↦ inr (insert_sorted-Any x ys (inl px))
            | inr (inl py) ↦ inl py
            | inr (inr rest) ↦ inr (insert_sorted-Any x ys (inr rest))
          ])
  ]

  -- The sort loses nothing.
  pub sort_by-Any : (l : List A) → Any P l → Any P (sort_by before l)
  unfolding sort_by
  sort_by-Any [] h = h
  sort_by-Any (x ∷ xs) (inl px) = insert_sorted-Any x (sort_by before xs) (inl px)
  sort_by-Any (x ∷ xs) (inr rest) =
      insert_sorted-Any x (sort_by before xs) (inr (sort_by-Any xs rest))

  insert_sorted-Any_back : (x : A) (l : List A) → Any P (insert_sorted before x l) → P x ⊎ Any P l
  unfolding insert_sorted
  insert_sorted-Any_back x [] h = h
  insert_sorted-Any_back x (y ∷ ys) h = elim (Bool-cases (before x y)) [
    | inl e ↦ rw (e, insert_sorted) at h
    | inr e ↦
        let split : P y ⊎ Any P (insert_sorted before x ys) = rw (e, insert_sorted) at h in
        elim split [
          | inl py ↦ inr (inl py)
          | inr rest ↦ elim (insert_sorted-Any_back x ys rest) [
            | inl px ↦ inl px
            | inr there ↦ inr (inr there)
          ]
        ]
  ]

  -- Nor does it add anything.
  pub sort_by-Any_back : (l : List A) → Any P (sort_by before l) → Any P l
  unfolding sort_by
  sort_by-Any_back [] h = h
  sort_by-Any_back (x ∷ xs) h = elim (insert_sorted-Any_back x (sort_by before xs) h) [
    | inl px ↦ inl px
    | inr rest ↦ inr (sort_by-Any_back xs rest)
  ]
