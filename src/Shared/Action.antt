-- ===== src/Shared/Action.antt =====
-- A call of a method that may change a state of type S and may throw. What was written stays
-- written after a throw, as in JavaScript.
use kudi_ai.Common.{◌≡◌, refl, arith, Bool, true, false}
use kudi_ai.Shared.Errors.{Error, Result, ok, err}

abbrev pub Action : Type 0 → Type 0 → Type 0
Action S A = S → Result A × S

module _ {S A : Type 0} where
  abbrev pub pure : A → Action S A
  pure a s = (ok a, s)

  abbrev pub throw : Error → Action S A
  throw e s = (err e, s)

  -- A call of code that changes nothing and may throw.
  abbrev pub lift : Result A → Action S A
  lift r s = (r, s)

  abbrev pub gets : (S → A) → Action S A
  gets f s = (ok (f s), s)

  -- `try { m } catch (e) { handler }`
  abbrev pub try_catch : Action S A → (Error → Action S A) → Action S A
  try_catch m handler s = let (r, t) = m s in elim r [ ok a ↦ (ok a, t) | err e ↦ handler e t ]

infixl 5 ◌>>=◌ ◌>>◌
abbrev pub ◌>>=◌ : {S A B : Type 0} → Action S A → (A → Action S B) → Action S B
◌>>=◌ m f s = let (r, t) = m s in elim r [ ok a ↦ f a t | err e ↦ (err e, t) ]

abbrev pub ◌>>◌ : {S A B : Type 0} → Action S A → Action S B → Action S B
m >> k = m >>= λ _. k

abbrev pub modify : {S : Type 0} → (S → S) → Action S (Unit {0})
modify f s = (ok tt, f s)

-- `if (c) throw e;`
abbrev pub throw_if : {S : Type 0} → Bool → Error → Action S (Unit {0})
throw_if true e = throw e
throw_if false e = pure tt

-- Inversion of a sequence that went through.
pub >>=-eq_ok :
    {S A B : Type 0} (m : Action S A) (f : A → Action S B) (s : S) {b : B} {u : S}
    → (m >>= f) s ≡ (ok b, u)
    → (a : A) × (t : S) × (m s ≡ (ok a, t)) × (f a t ≡ (ok b, u))
>>=-eq_ok {S} {A} {B} m f s {b} {u} h = by_result (m s).0 (m s).1 refl h
  where
    by_result :
        (r : Result A) (t : S)
        → m s ≡ (r, t)
        → (elim r as (λ _. Result B × S) [ ok a ↦ f a t | err e ↦ (err e, t) ]) ≡ (ok b, u)
        → (a : A) × (t : S) × (m s ≡ (ok a, t)) × (f a t ≡ (ok b, u))
    by_result (ok a) t e k = (a, t, e, k)
    by_result (err e') t e k = cc

pub >>=-of_ok :
    {S A B : Type 0} (m : Action S A) (f : A → Action S B) (s : S) {a : A} {t : S}
    → m s ≡ (ok a, t)
    → (m >>= f) s ≡ f a t
>>=-of_ok m f s h = ground arith

pub >>=-of_err :
    {S A B : Type 0} (m : Action S A) (f : A → Action S B) (s : S) {e : Error} {t : S}
    → m s ≡ (err e, t)
    → (m >>= f) s ≡ (err e, t)
>>=-of_err m f s h = ground arith
