-- ===== src/Prelude/Exec.antt =====
-- Methods that change a state and may raise. What was written before a raise stays written, so
-- the state comes back beside the error too.
use mathlib.Core.Path.{◌≡◌, refl}
use mathlib.Core.Logic.{◌⊎◌, inl, inr}
use native.Mathlib.Omega.{arith}
use gafaelfawr.Prelude.Result.{Result, ok, err}

abbrev pub Exec : Type 0 → Type 0 → Type 0 → Type 0
Exec S E A = S → Result E A × S

module _ {S E A : Type 0} where
  abbrev pub pure : A → Exec S E A
  pure a s = (ok a, s)

  abbrev pub raise : E → Exec S E A
  raise e s = (err e, s)

  -- A pure check or computation that may raise.
  abbrev pub lift : Result E A → Exec S E A
  lift r s = (r, s)

  abbrev pub gets : (S → A) → Exec S E A
  gets f s = (ok (f s), s)

  abbrev pub after_try : Exec S E (Unit {0}) → Result E A → Exec S E A
  after_try cleanup (ok a) s = (ok a, s)
  after_try cleanup (err e) s = (err e, (cleanup s).1)

  -- `try: m` with `except Exception: cleanup; raise`.
  abbrev pub on_error : Exec S E A → Exec S E (Unit {0}) → Exec S E A
  on_error m cleanup s = let (r, t) = m s in after_try cleanup r t

abbrev pub modify : {S E : Type 0} → (S → S) → Exec S E (Unit {0})
modify f s = (ok tt, f s)

module _ {S E A B : Type 0} where
  abbrev pub continue : Result E A → (A → Exec S E B) → Exec S E B
  continue (ok a) f s = f a s
  continue (err e) f s = (err e, s)

  infixl 5 ◌>>=◌ ◌>>◌
  abbrev pub ◌>>=◌ : Exec S E A → (A → Exec S E B) → Exec S E B
  ◌>>=◌ m f s = let (r, t) = m s in continue r f t

  abbrev pub ◌>>◌ : Exec S E A → Exec S E B → Exec S E B
  m >> n = m >>= λ _. n

module _ {S E A B : Type 0} where
  -- A result that was passed on, and what follows it.
  pub continue-eq_ok :
      (r : Result E A) (f : A → Exec S E B) (s t : S) (b : B)
      → continue r f s ≡ (ok b, t)
      → (a : A) × (r ≡ ok a) × (f a s ≡ (ok b, t))
  continue-eq_ok (ok a) f s t b h = (a, refl, h)
  continue-eq_ok (err e) f s t b h = absurd (ground arith)

  -- An exception that was passed on, or raised by what follows.
  pub continue-eq_err :
      (r : Result E A) (f : A → Exec S E B) (s t : S) (e : E)
      → continue r f s ≡ (err e, t)
      → ((r ≡ err e) × (s ≡ t)) ⊎ ((a : A) × (r ≡ ok a) × (f a s ≡ (err e, t)))
  continue-eq_err (ok a) f s t e h = inr (a, refl, h)
  continue-eq_err (err d) f s t e h = inl (ground arith)

  -- Either the exception was passed on, or what follows gave the result.
  pub continue_cases :
      (r : Result E A) (f : A → Exec S E B) (s t : S) (q : Result E B)
      → continue r f s ≡ (q, t)
      → (t ≡ s) ⊎ ((a : A) × (r ≡ ok a) × (f a s ≡ (q, t)))
  continue_cases (ok a) f s t q h = inr (a, refl, h)
  continue_cases (err d) f s t q h = inl (ground arith)

module _ {S E B : Type 0} where
  -- A check that passed, and the action behind it.
  pub lift->>-eq-ok :
      (r : Result E (Unit {0})) (m : Exec S E B) (s t : S) (b : B)
      → continue r (λ _. m) s ≡ (ok b, t)
      → (r ≡ ok tt) × (m s ≡ (ok b, t))
  lift->>-eq-ok (ok u) m s t b h = (refl, h)
  lift->>-eq-ok (err e) m s t b h = absurd (ground arith)
