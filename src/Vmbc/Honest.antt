-- ===== src/Vmbc/Honest.antt =====
-- Bodies that never throw, and fail only with a code other than VmbErrorSuccess.
use vimbax_ros2_driver.Common.{
  ◌≡◌, false, ℤ, Exit, value, error, aborted, Act, arith, pure, attempt, caught, continue, ◌>>=◌,
  Result,
}
use vimbax_ros2_driver.Error.{is_success, checked}
use vimbax_ros2_driver.Vmbc.{Call}
use vimbax_ros2_driver.Vmbc.Features.{call}

-- A body that returns, and if it fails, with a code other than VmbErrorSuccess.
abbrev pub FailsHonestly : {A S : Type 0} → Exit A × S → Type 0
FailsHonestly (value a, s) = Unit {0}
FailsHonestly (error e, s) = is_success e ≡ false
FailsHonestly (aborted x, s) = ⊥

pub record Honest {D A : Type 0} (m : Act D A) : Type 0 where
  pub at : (d : D) → FailsHonestly (m d)

module _ {D A B : Type 0} where
  continue-Honest :
      (r : Exit A × D) (f : A → Act D B)
      → FailsHonestly r
      → ((a : A) → Honest (f a))
      → FailsHonestly (continue r f)
  continue-Honest (value a, d) f h k = (k a).at d
  continue-Honest (error e, d) f h k = h
  continue-Honest (aborted x, d) f h k = h

  pub bind-Honest :
      (m : Act D A) (f : A → Act D B) → Honest m → ((a : A) → Honest (f a)) → Honest (m >>= f)
  unfolding ◌>>=◌
  bind-Honest m f h k = record { at = λ d. continue-Honest (m d) f (h.at d) k }

module _ {D A : Type 0} where
  pub pure-Honest : (a : A) → Honest {D = D} (pure a)
  unfolding pure
  pure-Honest a = record { at = λ d. tt }

  checked-Honest : (r : ℤ × A × D) → FailsHonestly (checked r.0 r.1, r.2)
  checked-Honest (e, a, d) = ground arith

  pub call-Honest : (m : Call D A) → Honest (call m)
  call-Honest m = record { at = λ d. checked-Honest (m d) }

  caught-Honest : (r : Exit A × D) → FailsHonestly r → FailsHonestly (caught r)
  caught-Honest (value a, d) h = tt
  caught-Honest (error e, d) h = tt
  caught-Honest (aborted x, d) h = h

  pub attempt-Honest : (m : Act D A) → Honest m → Honest (attempt m)
  unfolding attempt
  attempt-Honest m h = record { at = λ d. caught-Honest (m d) (h.at d) }

-- A body that returns a value.
abbrev pub GivesValue : {A S : Type 0} → Exit A × S → Type 0
GivesValue (value a, s) = Unit {0}
GivesValue (error e, s) = ⊥
GivesValue (aborted x, s) = ⊥

pub record Total {D A : Type 0} (m : Act D A) : Type 0 where
  pub at : (d : D) → GivesValue (m d)

module _ {D A B : Type 0} where
  continue-GivesValue :
      (r : Exit A × D) (f : A → Act D B)
      → GivesValue r
      → ((a : A) → Total (f a))
      → GivesValue (continue r f)
  continue-GivesValue (value a, d) f h k = (k a).at d
  continue-GivesValue (error e, d) f h k = absurd h
  continue-GivesValue (aborted x, d) f h k = absurd h

  pub bind-Total :
      (m : Act D A) (f : A → Act D B) → Total m → ((a : A) → Total (f a)) → Total (m >>= f)
  unfolding ◌>>=◌
  bind-Total m f h k = record { at = λ d. continue-GivesValue (m d) f (h.at d) k }

module _ {D A : Type 0} where
  pub pure-Total : (a : A) → Total {D = D} (pure a)
  unfolding pure
  pure-Total a = record { at = λ d. tt }

  caught-GivesValue : (r : Exit A × D) → FailsHonestly r → GivesValue (caught r)
  caught-GivesValue (value a, d) h = tt
  caught-GivesValue (error e, d) h = tt
  caught-GivesValue (aborted x, d) h = h

  -- An error that is kept in a variable ends nothing.
  pub attempt-Total : (m : Act D A) → Honest m → Total (attempt m)
  unfolding attempt
  attempt-Total m h = record { at = λ d. caught-GivesValue (m d) (h.at d) }

module _ {D A B : Type 0} where
  -- A call whose result is used at once.
  pub attempt_then-Total :
      (m : Act D A) (f : Result A → B) → Honest m → Total (attempt m >>= λ res. pure (f res))
  attempt_then-Total m f h = bind-Total _ _ (attempt-Total m h) λ res. pure-Total (f res)
