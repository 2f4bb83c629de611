-- ===== src/Gateway/Limiter/Tracking/Keys.antt =====
-- The keys of the sets of rate-limiter.middleware.ts, what is fresh in a set, and the requests of a key.
use gusto_backend.Common.{
  ℕ, suc, ◌+◌, ◌≤◌, String, Bool, true, false, not, ◌&&◌, Option, none, some, List, [], ◌∷◌, All,
  if◌then◌else◌, str_eq, str_eq_iff, ltb, ◌≡◌, ◌≢◌, refl, sym, arith,
}
use gusto_backend.Common.Text.{split, last_of, occurs, joined_inj, behind_inj}
use gusto_backend.Gateway.Limiter.{Window, Hit, write_tool, limit_key, fresh}

-- The scores of a set, expired or not.
abbrev pub scores_of : Option Window → List ℕ
scores_of none = []
scores_of (some w) = w.scores

-- No score outlives the set.
abbrev pub WithinLife : ℕ → List ℕ → Type 0
WithinLife e = All (λ x. x + 60000 ≤ e)

pub fresh_expired : (xs : List ℕ) (e t : ℕ) → WithinLife e xs → e ≤ t → fresh t xs ≡ []
fresh_expired [] e t h k = refl
fresh_expired (x ∷ xs) e t (hx, h) k = ground (arith, fresh_expired xs e t h k)

pub fresh-fresh : (xs : List ℕ) (n t : ℕ) → n ≤ t → fresh t (fresh n xs) ≡ fresh t xs
fresh-fresh [] n t h = refl
fresh-fresh (x ∷ xs) n t h = ground (arith, fresh-fresh xs n t h)

pub later-WithinLife : (xs : List ℕ) (e f : ℕ) → WithinLife e xs → e ≤ f → WithinLife f xs
later-WithinLife [] e f h k = tt
later-WithinLife (x ∷ xs) e f (hx, h) k = (omega arith, later-WithinLife xs e f h k)

classes_apart : (u v : String) → limit_key true u ≢ limit_key false v
unfolding occurs
classes_apart u v e =
    let same =
      joined_inj ":" "write" "read" u v refl refl (behind_inj "rate-limit:mcp:food:" _ _ e) in
    ground (arith, same.0, str_eq_iff "write" "read")

pub limit_key_inj : (a b : Bool) (u v : String) → limit_key a u ≡ limit_key b v → (a ≡ b) × (u ≡ v)
limit_key_inj true true u v e =
    (refl, behind_inj ":" u v (behind_inj "write" _ _ (behind_inj "rate-limit:mcp:food:" _ _ e)))
limit_key_inj true false u v e = absurd (classes_apart u v e)
limit_key_inj false true u v e = absurd (classes_apart v u (sym e))
limit_key_inj false false u v e =
    (refl, behind_inj ":" u v (behind_inj "read" _ _ (behind_inj "rate-limit:mcp:food:" _ _ e)))

-- The requests of a user and a class of tools that are counted at `t`.
abbrev pub same_class : Bool → Bool → Bool
same_class a b = if a then b else not b

abbrev pub of_key : Bool → String → Hit → Bool
of_key writes user h = elim h.user_id [
  | none ↦ false
  | some u ↦
      not (str_eq u "")
      && (str_eq u user && same_class writes (write_tool (last_of (split "/" h.path))))
]

unfoldable pub recent : ℕ → Bool → String → List Hit → ℕ
recent t writes user [] = 0
recent t writes user (h ∷ hs) =
    let rest = recent t writes user hs in
    if of_key writes user h && ltb t (h.now + 60000) then suc rest else rest

-- Times do not run back.
abbrev pub InOrder : ℕ → List Hit → Type 0
InOrder n [] = Unit
InOrder n (h ∷ hs) = (n ≤ h.now) × InOrder h.now hs

abbrev pub last_time : ℕ → List Hit → ℕ
last_time n [] = n
last_time n (h ∷ hs) = last_time h.now hs
