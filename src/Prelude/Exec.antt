-- ===== src/Prelude/Exec.antt =====
-- Python code that mutates a state and may raise. What was written before a raise stays written,
-- so the state comes back beside the exception too.
use mathlib.Core.Path.{◌≡◌, refl, ap}

pub data Outcome {ℓ} (E A : Type ℓ) : Type ℓ where
  ok : A → Outcome E A
  raise : E → Outcome E A

abbrev pub Exec {ℓ} : (S E A : Type ℓ) → Type ℓ
Exec S E A = S → Outcome E A × S

-- A fallible step without a state.
abbrev pub and_then {ℓ} : {E A B : Type ℓ} → Outcome E A → (A → Outcome E B) → Outcome E B
and_then (ok a) f = f a
and_then (raise e) f = raise e

module _ {ℓ} {S E A : Type ℓ} where
  abbrev pub pure : A → Exec S E A
  pure a s = (ok a, s)

  abbrev pub throw : E → Exec S E A
  throw e s = (raise e, s)

module _ {ℓ} {S E A B : Type ℓ} where
  abbrev pub after : Outcome E A → (A → Exec S E B) → Exec S E B
  after (ok a) f s = f a s
  after (raise e) f s = (raise e, s)

  -- `try: m  except: handler`, with the handler told of a return as well (the `else` clause).
  abbrev pub catching : (Outcome E A → Exec S E B) → Outcome E A → Exec S E B
  catching handler r s = handler r s

  infixl 10 ◌>>=◌ ◌>>◌
  abbrev pub ◌>>=◌ : Exec S E A → (A → Exec S E B) → Exec S E B
  ◌>>=◌ m f s = after (m s).0 f (m s).1

  abbrev pub ◌>>◌ : Exec S E A → Exec S E B → Exec S E B
  m >> n = m >>= λ _. n

-- What a sequence that returns went through.
pub and_then-ok {ℓ} :
    {E A B : Type ℓ} (o : Outcome E A) (f : A → Outcome E B) {b : B}
    → and_then o f ≡ ok b
    → (a : A) × (o ≡ ok a) × (f a ≡ ok b)
and_then-ok (ok a) f h = (a, refl, h)
and_then-ok (raise e) f h = cc

pub after-ok {ℓ} :
    {S E A B : Type ℓ} (o : Outcome E A) (f : A → Exec S E B) (mid : S) {b : B} {end : S}
    → after o f mid ≡ (ok b, end)
    → (a : A) × (o ≡ ok a) × (f a mid ≡ (ok b, end))
after-ok (ok a) f mid h = (a, refl, h)
after-ok (raise e) f mid {b} {end} h = absurd (raise_ne_ok (ap (λ (x : Outcome _ _ × _). x.0) h))
  where
    raise_ne_ok : raise e ≡ ok b → ⊥
    raise_ne_ok q = cc

pub bind-ok {ℓ} :
    {S E A B : Type ℓ} (m : Exec S E A) (f : A → Exec S E B) (s : S) {b : B} {end : S}
    → (m >>= f) s ≡ (ok b, end)
    → (a : A) × (mid : S) × (m s ≡ (ok a, mid)) × (f a mid ≡ (ok b, end))
bind-ok m f s h =
    let (a, returned, rest) = after-ok (m s).0 f (m s).1 h in
    (a, (m s).1, (λ i. (returned i, (m s).1)), rest)
