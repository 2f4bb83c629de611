-- ===== src/Gateway/Limiter/Tracking.antt =====
-- The sorted sets of rate-limiter.middleware.ts as a count of the requests, one request at a time.
pub mod Keys
use gusto_backend.Common.{
  ℕ, suc, ◌+◌, ◌≤◌, String, Bool, true, false, not, ◌&&◌, Option, none, some, List, [], ◌∷◌, All,
  if◌then◌else◌, str_eq, str_eq_iff, ltb, length, keep-All, if_both, ◌≡◌, ◌≢◌, refl, sym, ap, ◌∙◌,
  subst, arith, inl, inr, Bool-cases, Option-cases,
}
use gusto_backend.Common.Dict.{Dict, lookup, insert, lookup-insert, lookup-insert_self}
use gusto_backend.Common.Text.{split, last_of, occurs, joined_inj, behind_inj}
use gusto_backend.Gateway.Limiter.{
  Window, Hit, write_tool, limit_key, live_scores, fresh, with_hit, limit_rate,
}
use gusto_backend.Gateway.Limiter.Tracking.Keys.{
  scores_of, WithinLife, fresh_expired, fresh-fresh, later-WithinLife, limit_key_inj, same_class,
  of_key,
}

-- From `n` on the sets show how many requests there were, by `counts`.
pub record IsTracking (counts : ℕ → Bool → String → ℕ) (m : Dict Window) (n : ℕ) : Type 0 where
  pub tracked :
      (t : ℕ) (writes : Bool) (user : String)
      → n ≤ t
      → length (fresh t (scores_of (lookup (limit_key writes user) m))) ≡ counts t writes user
  pub lives :
      (key : String) (w : Window)
      → lookup key m ≡ some w
      → WithinLife w.expires w.scores × (w.expires ≤ n + 60000)

-- A set that expired has nothing fresh.
pub live_fresh :
    (o : Option Window) (n t : ℕ)
    → n ≤ t
    → ((w : Window) → o ≡ some w → WithinLife w.expires w.scores)
    → fresh t (live_scores n o) ≡ fresh t (scores_of o)
live_fresh none n t h f = refl
live_fresh (some w) n t h f = ground (arith, fresh_expired w.scores w.expires t (f w refl))

module _ (counts : ℕ → Bool → String → ℕ) (m : Dict Window) (n now : ℕ) (later : n ≤ now)
    (state : IsTracking counts m n) (writes : Bool) (user : String) where
  abbrev old : Option Window
  old = lookup (limit_key writes user) m

  hit_scores :
      (t : ℕ)
      → now ≤ t
      → length (fresh t (with_hit now old).scores)
        ≡ (if ltb t (now + 60000) then suc (counts t writes user) else counts t writes user)
  hit_scores t h = ground (
    arith,
    fresh-fresh (live_scores now old) now t h,
    live_fresh old now t h (λ w e. (state.lives (limit_key writes user) w e).0),
    state.tracked t writes user,
  )

  hit_lives : WithinLife (now + 60000) (with_hit now old).scores
  hit_lives = (omega arith, keep-All _ _ (live_scores now old) (live_within old refl))
    where
      live_within : (o : Option Window) → old ≡ o → WithinLife (now + 60000) (live_scores now o)
      live_within none e = tt
      live_within (some w) e =
          let l = state.lives (limit_key writes user) w e in
          if_both (WithinLife (now + 60000)) (ltb now w.expires) w.scores []
            (later-WithinLife w.scores w.expires (now + 60000) l.0 (omega (arith, l.1))) tt

named_apart :
    (a : Bool) (u v : String)
    → str_eq (limit_key a u) (limit_key a v) ≡ false
    → (str_eq u v && same_class a a) ≡ false
named_apart a u v h = elim (Bool-cases (str_eq u v)) [
  | inl same ↦
      let e = ap (λ x. limit_key a x) ((str_eq_iff u v).0 same) in
      absurd (ground (arith, (str_eq_iff (limit_key a u) (limit_key a v)).1 e))
  | inr apart ↦ ground arith
]

-- Of keys that differ, the users or the classes differ.
keys_match :
    (a b : Bool) (u v : String)
    → str_eq (limit_key a u) (limit_key b v) ≡ false
    → (str_eq u v && same_class b a) ≡ false
keys_match true false u v h = ground arith
keys_match false true u v h = ground arith
keys_match true true u v h = named_apart true u v h
keys_match false false u v h = named_apart false u v h

-- One more request on the counts.
abbrev pub plus : Hit → (ℕ → Bool → String → ℕ) → ℕ → Bool → String → ℕ
plus h counts t writes user =
    if of_key writes user h && ltb t (h.now + 60000)
    then suc (counts t writes user)
    else counts t writes user

module _ (write_limit read_limit : ℕ) (counts : ℕ → Bool → String → ℕ) (m : Dict Window) (n : ℕ)
    (h : Hit) (later : n ≤ h.now) (state : IsTracking counts m n) where
  -- A request of no user is in no count.
  unnamed-IsTracking :
      ((writes : Bool) (user : String) → of_key writes user h ≡ false)
      → IsTracking (plus h counts) m h.now
  unnamed-IsTracking no_one = record {
    tracked = λ t writes user k. ground (arith, no_one writes user, state.tracked t writes user);
    lives = λ key w e. let l = state.lives key w e in (l.0, omega (arith, l.1));
  }

  module _ (class : Bool) (user : String)
      (matches : (writes : Bool) (other : String)
        → of_key writes other h ≡ (str_eq user other && same_class writes class)) where
    abbrev key_of : String
    key_of = limit_key class user

    abbrev written : Dict Window
    written = insert key_of (with_hit h.now (lookup key_of m)) m

    -- Of the user's own class.
    own_tracked :
        (t : ℕ)
        → h.now ≤ t
        → length (fresh t (scores_of (lookup key_of written))) ≡ plus h counts t class user
    own_tracked t k = ground (
      arith,
      hit_scores counts m n h.now later state class user t k,
      lookup-insert_self key_of (with_hit h.now (lookup key_of m)) m,
      matches class user,
      str_eq_iff user user,
    )

    other_tracked :
        (t : ℕ) (writes : Bool) (other : String)
        → h.now ≤ t
        → str_eq key_of (limit_key writes other) ≡ false
        → length (fresh t (scores_of (lookup (limit_key writes other) written)))
          ≡ plus h counts t writes other
    other_tracked t writes other k apart =
        let kept : lookup (limit_key writes other) written ≡ lookup (limit_key writes other) m =
          ground (
            arith,
            lookup-insert key_of (limit_key writes other) (with_hit h.now (lookup key_of m)) m,
          ) in
        let unmatched : of_key writes other h ≡ false =
          matches writes other ∙ keys_match class writes user other apart in
        ground (
          arith,
          unmatched,
          state.tracked t writes other,
          ap (λ o. length (fresh t (scores_of o))) kept,
        )

    named-IsTracking : IsTracking (plus h counts) written h.now
    named-IsTracking = record {
      tracked = λ t writes other k. elim (Bool-cases (str_eq key_of (limit_key writes other))) [
        | inl same ↦
            let (a, b) =
              limit_key_inj class writes user other
                ((str_eq_iff key_of (limit_key writes other)).0 same) in
            subst
              (λ x.
                length (fresh t (scores_of (lookup (limit_key x other) written)))
                ≡ plus h counts t x other)
              a
              (subst
                (λ x.
                  length (fresh t (scores_of (lookup (limit_key class x) written)))
                  ≡ plus h counts t class x)
                b (own_tracked t k))
        | inr apart ↦ other_tracked t writes other k apart
      ];
      lives = λ key w e. elim (Bool-cases (str_eq key_of key)) [
        | inl same ↦
            let new : with_hit h.now (lookup key_of m) ≡ w =
              ground (arith, lookup-insert key_of key (with_hit h.now (lookup key_of m)) m) in
            subst (λ x. WithinLife x.expires x.scores × (x.expires ≤ h.now + 60000)) new
              (hit_lives counts m n h.now later state class user, omega arith)
        | inr apart ↦
            let l =
              state.lives key w
                (ground (arith, lookup-insert key_of key (with_hit h.now (lookup key_of m)) m)) in
            (l.0, omega (arith, l.1))
      ];
    }

  abbrev class_of : Bool
  class_of = write_tool (last_of (split "/" h.path))

  pub hit-IsTracking : IsTracking (plus h counts) (limit_rate write_limit read_limit h m).1 h.now
  unfolding limit_rate
  hit-IsTracking = elim (Option-cases h.user_id) [
    | inl e ↦ becomes m (ground arith) (unnamed-IsTracking (λ writes user. ground arith))
    | inr (user, e) ↦ elim (Bool-cases (str_eq user "")) [
      | inl empty ↦ becomes m (ground arith) (unnamed-IsTracking (λ writes other. ground arith))
      | inr full ↦
          becomes (written class_of user (λ writes other. ground arith)) (ground arith)
            (named-IsTracking class_of user (λ writes other. ground arith))
    ]
  ]
    where
      becomes :
          (x : Dict Window)
          → (limit_rate write_limit read_limit h m).1 ≡ x
          → IsTracking (plus h counts) x h.now
          → IsTracking (plus h counts) (limit_rate write_limit read_limit h m).1 h.now
      becomes x e tracks = subst (λ y. IsTracking (plus h counts) y h.now) (sym e) tracks
