-- ===== src/Common/Yields.antt =====
-- What holds of the value and of the state when a body that starts in a given state returns a value.
use vimbax_ros2_driver.Common.{
  ◌≡◌, refl, gets, Exit, value, error, aborted, Act, pure, fail, attempt, caught, continue, ◌>>=◌,
  ℤ,
}

abbrev pub OnReturn : {S A : Type 0} → (A → S → Type 0) → Exit A × S → Type 0
OnReturn Q (value a, s) = Q a s
OnReturn Q (error e, s) = Unit {0}
OnReturn Q (aborted x, s) = Unit {0}

pub record Yields {S A : Type 0} (P : S → Type 0) (Q : A → S → Type 0) (m : Act S A) : Type 0 where
  pub at : (s : S) → P s → OnReturn Q (m s)

module _ {S A B : Type 0} where
  OnReturn-continue :
      (Q : B → S → Type 0) (R : A → S → Type 0) (r : Exit A × S) (f : A → Act S B)
      → OnReturn R r
      → ((a : A) → Yields (R a) Q (f a))
      → OnReturn Q (continue r f)
  OnReturn-continue Q R (value a, s) f h k = (k a).at s h
  OnReturn-continue Q R (error e, s) f h k = tt
  OnReturn-continue Q R (aborted x, s) f h k = tt

  pub Yields-bind :
      {P : S → Type 0} {Q : B → S → Type 0} {R : A → S → Type 0} (m : Act S A) (f : A → Act S B)
      → Yields P R m
      → ((a : A) → Yields (R a) Q (f a))
      → Yields P Q (m >>= f)
  unfolding ◌>>=◌
  Yields-bind {P} {Q} {R} m f h k = record {
    at = λ s p. OnReturn-continue Q R (m s) f (h.at s p) k;
  }

module _ {S A : Type 0} where
  pub Yields-pure :
      {P : S → Type 0} {Q : A → S → Type 0} (a : A) → ((s : S) → P s → Q a s) → Yields P Q (pure a)
  unfolding pure
  Yields-pure a h = record { at = λ s p. h s p }

  pub Yields-fail : {P : S → Type 0} {Q : A → S → Type 0} (e : ℤ) → Yields P Q (fail e)
  unfolding fail
  Yields-fail e = record { at = λ s p. tt }

module _ {S A : Type 0} where
  pub Yields-gets : {P : S → Type 0} (f : S → A) → Yields P (λ a s. P s × (f s ≡ a)) (gets f)
  unfolding gets
  Yields-gets f = record { at = λ s p. (p, refl) }

  OnReturn-weaken :
      (Q R : A → S → Type 0) (r : Exit A × S)
      → ((a : A) (s : S) → Q a s → R a s)
      → OnReturn Q r
      → OnReturn R r
  OnReturn-weaken Q R (value a, s) k h = k a s h
  OnReturn-weaken Q R (error e, s) k h = tt
  OnReturn-weaken Q R (aborted x, s) k h = tt

  pub Yields-weaken :
      {P : S → Type 0} {Q R : A → S → Type 0} (m : Act S A)
      → Yields P Q m
      → ((a : A) (s : S) → Q a s → R a s)
      → Yields P R m
  Yields-weaken {Q} {R} m h k = record { at = λ s p. OnReturn-weaken Q R (m s) k (h.at s p) }

  OnReturn-any : (r : Exit A × S) → OnReturn (λ a s. Unit {0}) r
  OnReturn-any (value a, s) = tt
  OnReturn-any (error e, s) = tt
  OnReturn-any (aborted x, s) = tt

  pub Yields-any : {P : S → Type 0} (m : Act S A) → Yields P (λ a s. Unit {0}) m
  Yields-any m = record { at = λ s p. OnReturn-any (m s) }

-- A body that leaves a part of the state as it is, however it ends.
pub record Steady {S A : Type 0} (P : S → Type 0) (m : Act S A) : Type 0 where
  pub at : (s : S) → P s → P (m s).1

module _ {S A : Type 0} where
  OnReturn-Steady : (P : S → Type 0) (r : Exit A × S) → P r.1 → OnReturn (λ a. P) r
  OnReturn-Steady P (value a, s) h = h
  OnReturn-Steady P (error e, s) h = tt
  OnReturn-Steady P (aborted x, s) h = tt

  pub Yields-Steady : {P : S → Type 0} (m : Act S A) → Steady P m → Yields P (λ a. P) m
  Yields-Steady {P} m h = record { at = λ s p. OnReturn-Steady P (m s) (h.at s p) }

  Steady-caught : (P : S → Type 0) (r : Exit A × S) → P r.1 → P (caught r).1
  Steady-caught P (value a, s) h = h
  Steady-caught P (error e, s) h = h
  Steady-caught P (aborted x, s) h = h

  pub Steady-attempt : {P : S → Type 0} (m : Act S A) → Steady P m → Steady P (attempt m)
  unfolding attempt
  Steady-attempt {P} m h = record { at = λ s p. Steady-caught P (m s) (h.at s p) }

  pub Steady-pure : {P : S → Type 0} (a : A) → Steady P (pure a)
  unfolding pure
  Steady-pure a = record { at = λ s p. p }

module _ {S A B : Type 0} where
  Steady-continue :
      (P : S → Type 0) (r : Exit A × S) (f : A → Act S B)
      → P r.1
      → ((a : A) → Steady P (f a))
      → P (continue r f).1
  Steady-continue P (value a, s) f h k = (k a).at s h
  Steady-continue P (error e, s) f h k = h
  Steady-continue P (aborted x, s) f h k = h

  pub Steady-bind :
      {P : S → Type 0} (m : Act S A) (f : A → Act S B)
      → Steady P m
      → ((a : A) → Steady P (f a))
      → Steady P (m >>= f)
  unfolding ◌>>=◌
  Steady-bind {P} m f h k = record { at = λ s p. Steady-continue P (m s) f (h.at s p) k }
