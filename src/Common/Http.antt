-- ===== src/Common/Http.antt =====
-- Results of a request handler: a value or an HTTP exception, by its class. Message texts are
-- left out; two exceptions of one class are the same to a caller, who reads the status.
use Prim.Native.Nat.{ℕ}
use mathlib.Core.Path.{◌≡◌, refl, ap}
use mathlib.Core.Bool.{Bool, true, false}
use mathlib.Core.Option.{Option, none, some}
use gusto_backend.Common.Tests.{if◌then◌else◌}

-- The Nest exceptions that the services throw; `http s` is `new HttpException(…, s)`, and
-- `internal` is a plain `Error`, which Nest answers with 500.
pub data HttpError : Type 0 where
  bad_request unauthorized not_found conflict unprocessable too_many_requests : HttpError
  internal service_unavailable : HttpError
  http : ℕ → HttpError

abbrev pub status : HttpError → ℕ
status bad_request = 400
status unauthorized = 401
status not_found = 404
status conflict = 409
status unprocessable = 422
status too_many_requests = 429
status internal = 500
status service_unavailable = 503
status (http s) = s

pub data Result (A : Type 0) : Type 0 where
  ok : A → Result A
  err : HttpError → Result A

-- A handler over the state `S`: what was written before an exception stays written.
abbrev pub Action : Type 0 → Type 0 → Type 0
Action S A = S → Result A × S

module _ {S A : Type 0} where
  abbrev pub pure : A → Action S A
  pure a s = (ok a, s)

  abbrev pub throw : HttpError → Action S A
  throw e s = (err e, s)

  abbrev pub or_throw : Option A → HttpError → Action S A
  or_throw none e s = (err e, s)
  or_throw (some a) e s = (ok a, s)

  abbrev pub gets : (S → A) → Action S A
  gets f s = (ok (f s), s)

module _ {S : Type 0} where
  abbrev pub throw_if : Bool → HttpError → Action S (Unit {0})
  throw_if c e s = (if c then err e else ok tt, s)

  abbrev pub modify : (S → S) → Action S (Unit {0})
  modify f s = (ok tt, f s)

infixl 5 ◌>>=◌ ◌>>◌
abbrev pub ◌>>=◌ : {S A B : Type 0} → Action S A → (A → Action S B) → Action S B
◌>>=◌ m f s = let (r, s') = m s in elim r [ ok a ↦ f a s' | err e ↦ (err e, s') ]

abbrev pub ◌>>◌ : {S A B : Type 0} → Action S A → Action S B → Action S B
m >> k = m >>= λ _. k

abbrev pub is_ok : {A : Type 0} → Result A → Bool
is_ok (ok a) = true
is_ok (err e) = false

-- What a `try { … } catch (err) { mapUpstreamError(err) }` around a call of another service
-- throws: its status again. `unreachable` has no response and becomes 503.
pub data CallError : Type 0 where
  unreachable : CallError
  response : ℕ → CallError

abbrev pub map_upstream_error : CallError → HttpError
map_upstream_error unreachable = service_unavailable
map_upstream_error (response s) = http s

-- A `try { m } catch { … }` that goes on after it: whether `m` returned.
abbrev pub attempt : {S A : Type 0} → Action S A → Action S Bool
attempt m s = let (r, s') = m s in (ok (is_ok r), s')

-- A handler whose first step returns goes on with the second.
pub bind_ok :
    {S A B : Type 0} (m : Action S A) (f : A → Action S B) (s : S) (a : A) (t : S)
    → m s ≡ (ok a, t)
    → (m >>= f) s ≡ f a t
bind_ok {S = S} {B = B} m f s a t e =
    ap (λ p. elim p.0 as (λ _. Result B × S) [ ok x ↦ f x p.1 | err x ↦ (err x, p.1) ]) e

-- What the first step leaves, and the second keeps, is left by both.
pub bind_keeps :
    {S A B : Type 0} (P : S → Type 0) (m : Action S A) (f : A → Action S B) (s : S)
    → P (m s).1
    → ((a : A) (t : S) → P t → P (f a t).1)
    → P ((m >>= f) s).1
bind_keeps {S = S} {A = A} {B = B} P m f s p q = by_result (m s) p
  where
    by_result :
        (r : Result A × S)
        → P r.1
        → P (elim r.0 as (λ _. Result B × S) [ ok x ↦ f x r.1 | err x ↦ (err x, r.1) ]).1
    by_result (ok a, t) h = q a t h
    by_result (err e, t) h = h

-- A handler whose answer is replaced leaves the same state.
pub then_pure-state :
    {S A B : Type 0} (m : Action S A) (b : B) (s : S) → ((m >> pure b) s).1 ≡ (m s).1
then_pure-state {S = S} {A = A} {B = B} m b s = by_result (m s)
  where
    by_result :
        (r : Result A × S)
        → (elim r.0 as (λ _. Result B × S) [ ok x ↦ (ok b, r.1) | err x ↦ (err x, r.1) ]).1 ≡ r.1
    by_result (ok a, t) = refl
    by_result (err e, t) = refl

-- A handler whose first step throws goes no further.
pub bind_err :
    {S A B : Type 0} (m : Action S A) (f : A → Action S B) (s : S) (x : HttpError) (t : S)
    → m s ≡ (err x, t)
    → (m >>= f) s ≡ (err x, t)
bind_err {S = S} {B = B} m f s x t e =
    ap (λ p. elim p.0 as (λ _. Result B × S) [ ok a ↦ f a p.1 | err y ↦ (err y, p.1) ]) e
