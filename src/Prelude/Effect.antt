-- ===== src/Prelude/Effect.antt =====
-- Methods that change a state and may raise. What was done before a raise stays done, so the
-- state comes back beside the exception too.

pub data Outcome (E A : Type 0) : Type 0 where
  ok : A → Outcome E A
  raise : E → Outcome E A

abbrev pub Exec : Type 0 → Type 0 → Type 0 → Type 0
Exec S E A = S → Outcome E A × S

module _ {S E A : Type 0} where
  abbrev pub pure : A → Exec S E A
  pure a s = (ok a, s)

  abbrev pub throw : E → Exec S E A
  throw e s = (raise e, s)

  abbrev pub lift : Outcome E A → Exec S E A
  lift r s = (r, s)

  -- `try`: the exception becomes a value
  abbrev pub attempt : Exec S E A → Exec S E (Outcome E A)
  attempt m s = let (r, s') = m s in (ok r, s')

  abbrev pub recover : (E → Exec S E A) → Outcome E A → S → Outcome E A × S
  recover h (ok a) s = (ok a, s)
  recover h (raise e) s = h e s

  -- `try: m` with the handler `h`
  abbrev pub catch : Exec S E A → (E → Exec S E A) → Exec S E A
  catch m h s = let (r, s') = m s in recover h r s'

module _ {S E A B : Type 0} where
  abbrev continue : Outcome E A → (A → Exec S E B) → Exec S E B
  continue (ok a) f s = f a s
  continue (raise e) f s = (raise e, s)

  infixl 10 ◌>>=◌ ◌>>◌
  abbrev pub ◌>>=◌ : Exec S E A → (A → Exec S E B) → Exec S E B
  ◌>>=◌ m f s = let (r, s') = m s in continue r f s'

  abbrev pub ◌>>◌ : Exec S E A → Exec S E B → Exec S E B
  m >> n = m >>= λ _. n
