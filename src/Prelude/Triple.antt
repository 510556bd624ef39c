-- ===== src/Prelude/Triple.antt =====
-- Before and after: what an action leaves when it returns, and what when it raises.
use mathlib.Core.Path.{◌≡◌, refl}
use mathlib.Core.Bool.{Bool, true, false}
use concept_microservice.Prelude.Tests.{if◌then◌else◌}
use concept_microservice.Prelude.Effect.{
  Outcome, ok, raise, Exec, pure, throw, lift, attempt, catch, ◌>>=◌,
}

module _ {S E A : Type 0} where
  abbrev pub Post : (A → S → Type 0) → (E → S → Type 0) → Outcome E A → S → Type 0
  Post Q X (ok a) s = Q a s
  Post Q X (raise e) s = X e s

  pub record Triple (P : S → Type 0) (m : Exec S E A) (Q : A → S → Type 0) (X : E → S → Type 0)
      : Type 0 where
    pub at : (s : S) → P s → Post Q X (m s).0 (m s).1

  module _ {P : S → Type 0} {Q : A → S → Type 0} {X : E → S → Type 0} where
    pub Triple-pure : (a : A) → ((s : S) → P s → Q a s) → Triple P (pure a) Q X
    Triple-pure a h = record { at = h }

    pub Triple-throw : (e : E) → ((s : S) → P s → X e s) → Triple P (throw e) Q X
    Triple-throw e h = record { at = h }

    pub Triple-lift :
        (r : Outcome E A)
        → ((a : A) → r ≡ ok a → (s : S) → P s → Q a s)
        → ((e : E) → r ≡ raise e → (s : S) → P s → X e s)
        → Triple P (lift r) Q X
    Triple-lift (ok a) h k = record { at = h a refl }
    Triple-lift (raise e) h k = record { at = k e refl }

    pub Triple-if :
        (b : Bool) (m n : Exec S E A)
        → (b ≡ true → Triple P m Q X)
        → (b ≡ false → Triple P n Q X)
        → Triple P (if b then m else n) Q X
    Triple-if true m n h k = h refl
    Triple-if false m n h k = k refl

module _ {S E A : Type 0} {P : S → Type 0} {X : E → S → Type 0} where
  pub Triple-attempt :
      (m : Exec S E A) {R : Outcome E A → S → Type 0}
      → Triple P m (λ a. R (ok a)) (λ e. R (raise e))
      → Triple P (attempt m) R X
  Triple-attempt m {R = R} h = record { at = λ s p. go (m s).0 (m s).1 (h.at s p) }
    where
      go : (r : Outcome E A) (s : S) → Post (λ a. R (ok a)) (λ e. R (raise e)) r s → R r s
      go (ok a) s q = q
      go (raise e) s q = q

  pub Triple-catch :
      (m : Exec S E A) (h : E → Exec S E A) (Y : E → S → Type 0) {Q : A → S → Type 0}
      → Triple P m Q Y
      → ((e : E) → Triple (Y e) (h e) Q X)
      → Triple P (catch m h) Q X
  Triple-catch m h Y {Q = Q} k f = record { at = λ s p. go (m s).0 (m s).1 (k.at s p) }
    where
      go :
          (r : Outcome E A) (s : S)
          → Post Q Y r s
          → Post Q X (catch (lift r) h s).0 (catch (lift r) h s).1
      go (ok a) s q = q
      go (raise e) s q = (f e).at s q

module _ {S E A B : Type 0} {P : S → Type 0} {X : E → S → Type 0} where
  pub Triple-bind :
      (m : Exec S E A) (f : A → Exec S E B) (R : A → S → Type 0) {Q : B → S → Type 0}
      → Triple P m R X
      → ((a : A) → Triple (R a) (f a) Q X)
      → Triple P (m >>= f) Q X
  Triple-bind m f R {Q = Q} h k = record { at = λ s p. go (m s).0 (m s).1 (h.at s p) }
    where
      go :
          (r : Outcome E A) (s : S)
          → Post R X r s
          → Post Q X ((lift r >>= f) s).0 ((lift r >>= f) s).1
      go (ok a) s q = (k a).at s q
      go (raise e) s q = q
