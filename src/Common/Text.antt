-- ===== src/Common/Text.antt =====
-- Texts by their characters: `split`, `includes`, and when two joined texts are the same.
use Prim.Native.Nat.{ℕ, zero, suc}
use Prim.Native.Char.{Char, code}
pub use Prim.Native.String.{◌++◌, count}
use Prim.Native.String.{String, [], ◌∷◌}
use mathlib.Core.Path.{◌≡◌, refl, sym, ap, ◌∙◌}
use mathlib.Core.Bool.{Bool, false, ◌||◌}
use mathlib.Core.List.{List, [], ◌∷◌}
use mathlib.Core.Logic.{◌≢◌}
use native.Mathlib.Omega.{arith}
use text.Mathlib.Text.{◌==◌ as str_eq, starts_with as starts}
use text.Mathlib.TextEquality.{eq_iff as str_eq_iff}
use text.Mathlib.TextLemmas.{append_inj, append_cancel_left, nil-append, cons-append, length-append}
use gusto_backend.Common.Tests.{if◌then◌else◌, ◌==◌}

abbrev pub char_eq : Char → Char → Bool
char_eq c d = code c == code d

-- `text.startsWith(prefix)`
abbrev pub starts_with : String → String → Bool
starts_with s t = starts s t

-- `text.includes(part)`
unfoldable pub includes : String → String → Bool
includes [] part = starts [] part
includes (c ∷ s) part = starts (c ∷ s) part || includes s part

-- The part in front of the first `c`, and the one behind it.
unfoldable pub before : Char → String → String
before c [] = []
before c (d ∷ s) = if char_eq c d then [] else d ∷ before c s

unfoldable pub after : Char → String → String
after c [] = []
after c (d ∷ s) = if char_eq c d then s else after c s

-- Whether `c` occurs.
unfoldable pub occurs : Char → String → Bool
occurs c [] = false
occurs c (d ∷ s) = char_eq c d || occurs c s

-- What stands in front of a first `c` and what stands behind it.
pub before-append : (c : Char) (s t : String) → occurs c s ≡ false → before c (s ++ (c ∷ t)) ≡ s
unfolding before occurs
before-append c [] t h = ground (arith, nil-append (c ∷ t))
before-append c (d ∷ s) t h = ground (arith, before-append c s t, cons-append d s (c ∷ t))

pub after-append : (c : Char) (s t : String) → occurs c s ≡ false → after c (s ++ (c ∷ t)) ≡ t
unfolding after occurs
after-append c [] t h = ground (arith, nil-append (c ∷ t))
after-append c (d ∷ s) t h = ground (arith, after-append c s t, cons-append d s (c ∷ t))

-- Two texts joined at a `c` that occurs in neither first part have the same parts.
pub joined_inj :
    (c : Char) (s t x y : String)
    → occurs c s ≡ false
    → occurs c t ≡ false
    → s ++ ((c ∷ []) ++ x) ≡ t ++ ((c ∷ []) ++ y)
    → (s ≡ t) × (x ≡ y)
joined_inj c s t x y hs ht e =
    let e' : s ++ (c ∷ x) ≡ t ++ (c ∷ y) =
      ap (λ z. s ++ z) (sym (cons-append c [] x ∙ ap (λ z. c ∷ z) (nil-append x)))
      ∙ e
      ∙ ap (λ z. t ++ z) (cons-append c [] y ∙ ap (λ z. c ∷ z) (nil-append y)) in
    (
      sym (before-append c s x hs) ∙ ap (before c) e' ∙ before-append c t y ht,
      sym (after-append c s x hs) ∙ ap (after c) e' ∙ after-append c t y ht,
    )

-- Texts behind the same text.
pub behind_inj : (s x y : String) → s ++ x ≡ s ++ y → x ≡ y
behind_inj s x y e = append_cancel_left s x y e

-- Texts behind two others of the same length that differ.
pub behind_apart : (s t x y : String) → count s ≡ count t → str_eq s t ≡ false → s ++ x ≢ t ++ y
behind_apart s t x y n d e = ground (arith, append_inj {s₁ = s} {s₂ = t} e n, str_eq_iff s t)

-- Two texts of the same length behind two others.
pub tails_inj : (s t x y : String) → count x ≡ count y → s ++ x ≡ t ++ y → (s ≡ t) × (x ≡ y)
tails_inj s t x y n e =
    append_inj {s₁ = s} {s₂ = t} e (omega (arith, ap count e, length-append s x, length-append t y))

-- No character that a Redis pattern gives a meaning.
abbrev pub is_special : Char → Bool
is_special c =
    char_eq c "*"
    || char_eq c "?"
    || char_eq c "["
    || char_eq c "]"
    || char_eq c "^"
    || char_eq c "\\"

abbrev pub IsPlain : String → Type 0
IsPlain [] = Unit
IsPlain (c ∷ s) = (is_special c ≡ false) × IsPlain s

-- `text.split(c)`
abbrev pub grow : Char → List String → List String
grow d [] = (d ∷ []) ∷ []
grow d (x ∷ xs) = (d ∷ x) ∷ xs

unfoldable pub split : Char → String → List String
split c [] = [] ∷ []
split c (d ∷ s) = let rest = split c s in if char_eq c d then [] ∷ rest else grow d rest

-- `parts[parts.length - 1]`
abbrev pub last_of : List String → String
last_of [] = []
last_of (x ∷ []) = x
last_of (x ∷ y ∷ ys) = last_of (y ∷ ys)

-- `text.slice(n)`
abbrev pub drop : ℕ → String → String
drop zero s = s
drop (suc n) [] = []
drop (suc n) (c ∷ s) = drop n s

-- `parts.join(c)`
abbrev pub join : Char → List String → String
join c [] = []
join c (x ∷ []) = x
join c (x ∷ y ∷ ys) = x ++ ((c ∷ []) ++ join c (y ∷ ys))

pub split-plain : (c : Char) (s : String) → occurs c s ≡ false → split c s ≡ s ∷ []
unfolding split occurs
split-plain c [] h = refl
split-plain c (d ∷ s) h = ground (arith, split-plain c s)

pub split-append :
    (c : Char) (s t : String) → occurs c s ≡ false → split c (s ++ ((c ∷ []) ++ t)) ≡ s ∷ split c t
unfolding split occurs
split-append c [] t h = ground (arith, nil-append ((c ∷ []) ++ t), cons-append c [] t, nil-append t)
split-append c (d ∷ s) t h = ground (arith, split-append c s t, cons-append d s ((c ∷ []) ++ t))
