-- ===== src/Exec.antt =====
-- Coroutines and methods that change a state and may raise. What was changed before an exception
-- stays changed, so the state comes back in both cases.
use s3mer.Base.{◌≡◌, refl, ap, Option, none, some}
use s3mer.Errors.{Exn}

pub data Result {ℓ} (A : Type ℓ) : Type ℓ where
  ok : A → Result A
  raised : Exn → Result A

abbrev pub Exec {ℓ} : Type ℓ → Type ℓ → Type ℓ
Exec S A = S → Result A × S

module _ {ℓ} {S A : Type ℓ} where
  abbrev pub pure : A → Exec S A
  pure a s = (ok a, s)

  abbrev pub raise : Exn → Exec S A
  raise e s = (raised e, s)

  -- `try: … except Exception as exc: …`, with the outcome as a value
  abbrev pub attempt : Exec S A → Exec S (Result A)
  attempt m s = let (r, s') = m s in (ok r, s')

  abbrev pub or_raise : Option A → Exn → Exec S A
  or_raise none e = raise e
  or_raise (some a) e = pure a

module _ {ℓ} {S A B : Type ℓ} where
  abbrev pub continue : Result A → (A → Exec S B) → Exec S B
  continue (ok a) f s = f a s
  continue (raised e) f s = (raised e, s)

  infixl 5 ◌>>=◌ ◌>>◌
  abbrev pub ◌>>=◌ : Exec S A → (A → Exec S B) → Exec S B
  ◌>>=◌ m f s = let (r, s') = m s in continue r f s'

  abbrev pub ◌>>◌ : Exec S A → Exec S B → Exec S B
  m >> n = m >>= λ _. n

  bound :
      (r : Result A × S) (f : A → Exec S B) (b : B)
      → (continue r.0 f r.1).0 ≡ ok b
      → (a : A) × ((s' : S) × ((r ≡ (ok a, s')) × ((f a s').0 ≡ ok b)))
  bound (ok a, s') f b e = (a, (s', (refl, e)))
  bound (raised x, s') f b e = absurd cc

  -- A chain that succeeds has succeeded at its first part, and then at the rest.
  pub bind_ok :
      (m : Exec S A) (f : A → Exec S B) (s : S) (b : B)
      → ((m >>= f) s).0 ≡ ok b
      → (a : A) × ((s' : S) × ((m s ≡ (ok a, s')) × ((f a s').0 ≡ ok b)))
  bind_ok m f s b e = bound (m s) f b e

module _ {ℓ} {S A B : Type ℓ} where
  bound_at :
      (r : Result A × S) (f : A → Exec S B) (b : B) (end : S)
      → continue r.0 f r.1 ≡ (ok b, end)
      → (a : A) × ((s' : S) × ((r ≡ (ok a, s')) × (f a s' ≡ (ok b, end))))
  bound_at (ok a, s') f b end e = (a, (s', (refl, e)))
  bound_at (raised x, s') f b end e = absurd (not_ok (ap (λ r. r.0) e))
    where
      not_ok : raised x ≡ ok b → ⊥
      not_ok h = cc

  -- The same with the state at the end.
  pub bind_ok_at :
      (m : Exec S A) (f : A → Exec S B) (s : S) (b : B) (end : S)
      → (m >>= f) s ≡ (ok b, end)
      → (a : A) × ((s' : S) × ((m s ≡ (ok a, s')) × (f a s' ≡ (ok b, end))))
  bind_ok_at m f s b end e = bound_at (m s) f b end e

-- a chain of computations that may raise and change nothing
abbrev pub and_then {ℓ} : {A B : Type ℓ} → Result A → (A → Result B) → Result B
and_then (raised e) f = raised e
and_then (ok a) f = f a

pub and_then_ok {ℓ} :
    {A B : Type ℓ} (r : Result A) (f : A → Result B) (b : B)
    → and_then r f ≡ ok b
    → (a : A) × ((r ≡ ok a) × (f a ≡ ok b))
and_then_ok (raised e) f b h = absurd cc
and_then_ok (ok a) f b h = (a, (refl, h))

pub ok_eq {ℓ} : {A : Type ℓ} {a b : A} → ok a ≡ ok b → a ≡ b
ok_eq e = cc

pub answer_eq {ℓ} :
    {A S : Type ℓ} {a b : A} {s t : S}
    → Path (Result A × S) (ok a, s) (ok b, t)
    → Path (A × S) (a, s) (b, t)
answer_eq e = λ i. (ok_eq (ap (λ r. r.0) e) i, (e i).1)

pub raised_not_ok {ℓ} : {A : Type ℓ} {x : Exn} {a : A} → raised x ≡ ok a → ⊥
raised_not_ok e = cc

abbrev pub Action : Type 0 → Type 0
Action S = Exec S (Unit {0})

module _ {S : Type 0} where
  abbrev pub done : Action S
  done = pure tt

  abbrev pub modify : (S → S) → Action S
  modify f s = (ok tt, f s)
