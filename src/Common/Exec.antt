-- ===== src/Common/Exec.antt =====
-- Bodies that return a `result<T>` (result.hpp), over a state that they change.
use mathlib.Core.Bool.{Bool, true, false}
use vimbax_ros2_driver.Common.Int.{ℤ}

-- `result<T>`: a value or an error code. `result<void>` is `Result Unit`.
pub data Result {ℓ} (A : Type ℓ) : Type ℓ where
  ok : A → Result A
  err : ℤ → Result A

-- What leaves a body otherwise: a C++ exception, a fault (such as a call into a library that is closed),
-- or a loop that outruns its fuel.
pub data Abort : Type 0 where
  bad_variant_access out_of_range invalid_argument null_dereference division_by_zero : Abort
  out_of_fuel filesystem_error dangling_call : Abort

-- How a body ends: `return value`, `return error{code}`, or neither.
pub data Exit {ℓ} (A : Type ℓ) : Type ℓ where
  value : A → Exit A
  error : ℤ → Exit A
  aborted : Abort → Exit A

abbrev pub Act : Type 0 → Type 0 → Type 0
Act S A = S → Exit A × S

module _ {S A : Type 0} where
  unfoldable pub pure : A → Act S A
  pure a s = (value a, s)

  unfoldable pub fail : ℤ → Act S A
  fail e s = (error e, s)

  unfoldable pub abort : Abort → Act S A
  abort x s = (aborted x, s)

  unfoldable pub gets : (S → A) → Act S A
  gets f s = (value (f s), s)

  abbrev pub caught : Exit A × S → Exit (Result A) × S
  caught (value a, s) = (value (ok a), s)
  caught (error e, s) = (value (err e), s)
  caught (aborted x, s) = (aborted x, s)

  -- A call whose `result` is kept in a variable and tested by hand.
  unfoldable pub attempt : Act S A → Act S (Result A)
  attempt m s = caught (m s)

  -- `return res;`
  unfoldable pub give : Result A → Act S A
  give (ok a) s = (value a, s)
  give (err e) s = (error e, s)

  -- `*res`: `std::get` throws if the result holds an error.
  unfoldable pub deref : Result A → Act S A
  deref (ok a) s = (value a, s)
  deref (err e) s = (aborted bad_variant_access, s)

unfoldable pub modify : {S : Type 0} → (S → S) → Act S (Unit {0})
modify f s = (value tt, f s)

-- `if (!test) return error{code};`
unfoldable pub guard : {S : Type 0} → Bool → ℤ → Act S (Unit {0})
guard true e s = (value tt, s)
guard false e s = (error e, s)

module _ {S A B : Type 0} where
  abbrev pub continue : Exit A × S → (A → Act S B) → Exit B × S
  continue (value a, s) f = f a s
  continue (error e, s) f = (error e, s)
  continue (aborted x, s) f = (aborted x, s)

  infixl 5 ◌>>=◌ ◌>>◌
  -- To unfold this is to unfold the actions above.
  unfoldable pub ◌>>=◌ : Act S A → (A → Act S B) → Act S B
  unfolding pure fail abort gets attempt give deref modify guard
  ◌>>=◌ m f s = continue (m s) f

  abbrev pub ◌>>◌ : Act S A → Act S B → Act S B
  m >> n = m >>= λ _. n

-- `operator bool` of `result`.
abbrev pub is_ok : {A : Type 0} → Result A → Bool
is_ok (ok a) = true
is_ok (err e) = false
