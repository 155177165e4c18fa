-- ===== src/Common/Ensures.antt =====
-- What a body that returns a value says of it.
use vimbax_ros2_driver.Common.{
  ℕ, ◌≡◌, refl, Bool, true, false, Exit, value, error, aborted, Act, Result, ok, err, pure, fail,
  abort, attempt, caught, continue, ◌>>=◌, if◌then◌else◌,
}

abbrev pub OnValue : {S A : Type 0} → (A → Type 0) → Exit A × S → Type 0
OnValue P (value a, s) = P a
OnValue P (error e, s) = Unit {0}
OnValue P (aborted x, s) = Unit {0}

pub record Ensures {S A : Type 0} (P : A → Type 0) (m : Act S A) : Type 0 where
  pub at : (s : S) → OnValue P (m s)

module _ {S A B : Type 0} where
  OnValue-continue :
      (Q : B → Type 0) (P : A → Type 0) (r : Exit A × S) (f : A → Act S B)
      → OnValue P r
      → ((a : A) → P a → Ensures Q (f a))
      → OnValue Q (continue r f)
  OnValue-continue Q P (value a, s) f h k = (k a h).at s
  OnValue-continue Q P (error e, s) f h k = tt
  OnValue-continue Q P (aborted x, s) f h k = tt

  pub Ensures-bind :
      {Q : B → Type 0} {P : A → Type 0} (m : Act S A) (f : A → Act S B)
      → Ensures P m
      → ((a : A) → P a → Ensures Q (f a))
      → Ensures Q (m >>= f)
  unfolding ◌>>=◌
  Ensures-bind {Q} {P} m f h k = record { at = λ s. OnValue-continue Q P (m s) f (h.at s) k }

module _ {S A : Type 0} where
  pub Ensures-pure : {P : A → Type 0} (a : A) → P a → Ensures {S = S} P (pure a)
  unfolding pure
  Ensures-pure a h = record { at = λ s. h }

  pub Ensures-abort :
      {P : A → Type 0} (x : vimbax_ros2_driver.Common.Abort) → Ensures {S = S} P (abort x)
  unfolding abort
  Ensures-abort x = record { at = λ s. tt }

  pub Ensures-fail : {P : A → Type 0} (e : vimbax_ros2_driver.Common.ℤ) → Ensures {S = S} P (fail e)
  unfolding fail
  Ensures-fail e = record { at = λ s. tt }

  OnValue-any : (r : Exit A × S) → OnValue (λ a. Unit {0}) r
  OnValue-any (value a, s) = tt
  OnValue-any (error e, s) = tt
  OnValue-any (aborted x, s) = tt

  pub Ensures-any : (m : Act S A) → Ensures (λ a. Unit {0}) m
  Ensures-any m = record { at = λ s. OnValue-any (m s) }
