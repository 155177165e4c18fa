-- ===== src/Common/Runs.antt =====
-- A body that from some states returns a known value, and what holds afterwards.
use vimbax_ros2_driver.Common.{
  ◌≡◌, refl, sym, Exit, value, Act, ok, pure, attempt, caught, continue, ◌>>=◌,
}
use mathlib.Core.Path.{subst}

pub record Runs {S A : Type 0} (P Q : S → Type 0) (a : A) (m : Act S A) : Type 0 where
  pub at : (s : S) → P s → ((m s).0 ≡ value a) × Q (m s).1

module _ {S A B : Type 0} where
  continue-value :
      (r : Exit A × S) (a : A) (f : A → Act S B) → r.0 ≡ value a → continue r f ≡ f a r.1
  continue-value r a f e = subst (λ x. continue (x, r.1) f ≡ f a r.1) (sym e) refl

  pub Runs-bind :
      {P Q R : S → Type 0} {a : A} {b : B} (m : Act S A) (f : A → Act S B)
      → Runs P Q a m
      → Runs Q R b (f a)
      → Runs P R b (m >>= f)
  unfolding ◌>>=◌
  Runs-bind {R} {a} {b} m f h k = record {
    at = λ s p.
        subst (λ x. (x.0 ≡ value b) × R x.1) (sym (continue-value (m s) a f (h.at s p).0))
          (k.at (m s).1 (h.at s p).1);
  }

module _ {S A : Type 0} where
  pub Runs-pure : {P Q : S → Type 0} (a : A) → ((s : S) → P s → Q s) → Runs P Q a (pure a)
  unfolding pure
  Runs-pure a h = record { at = λ s p. (refl, h s p) }

  caught-value :
      (Q : S → Type 0) (r : Exit A × S) (a : A)
      → r.0 ≡ value a
      → Q r.1
      → ((caught r).0 ≡ value (ok a)) × Q (caught r).1
  caught-value Q r a e q =
      subst (λ x. ((caught (x, r.1)).0 ≡ value (ok a)) × Q (caught (x, r.1)).1) (sym e) (refl, q)

  pub Runs-attempt :
      {P Q : S → Type 0} {a : A} (m : Act S A) → Runs P Q a m → Runs P Q (ok a) (attempt m)
  unfolding attempt
  Runs-attempt {Q} {a} m h = record { at = λ s p. caught-value Q (m s) a (h.at s p).0 (h.at s p).1 }

module _ {S A B : Type 0} where
  -- The value is known but for what does not matter to the rest.
  pub Runs-bind_any :
      {P R : S → Type 0} {b : B} (V : A → Type 0) (m : Act S A) (f : A → Act S B)
      → ((s : S) → P s → (a : A) × ((m s).0 ≡ value a) × V a)
      → ((a : A) → V a → Runs (λ s. Unit {0}) R b (f a))
      → Runs P R b (m >>= f)
  unfolding ◌>>=◌
  Runs-bind_any {R} {b} V m f h k = record {
    at = λ s p.
        let (a, e, v) = h s p in
        subst (λ x. (x.0 ≡ value b) × R x.1) (sym (continue-value (m s) a f e))
          ((k a v).at (m s).1 tt);
  }
