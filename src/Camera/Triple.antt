-- ===== src/Camera/Triple.antt =====
-- What a method does to the camera: before it, after it returns a value, and after any other end.
use vimbax_ros2_driver.Common.{
  Exit, value, error, aborted, Act, Result, ok, err, pure, gets, attempt, deref, guard, ◌>>=◌,
  continue, caught, ℤ, Bool, true, false,
}
use vimbax_ros2_driver.Camera.{Camera, World, on_dev, update}

module _ {D A : Type 0} where
  -- `Q` after a value, `E` after an error or an abort.
  abbrev pub Leaves : (Camera → Type 0) → (Camera → Type 0) → Exit A × World D → Type 0
  Leaves E Q (value a, w) = Q w.camera
  Leaves E Q (error e, w) = E w.camera
  Leaves E Q (aborted x, w) = E w.camera

  pub record Triple (E P Q : Camera → Type 0) (m : Act (World D) A) : Type 0 where
    pub at : (w : World D) → P w.camera → Leaves E Q (m w)

module _ {D A B : Type 0} where
  Leaves-continue :
      (E R Q : Camera → Type 0) (r : Exit A × World D) (f : A → Act (World D) B)
      → Leaves E R r
      → ((a : A) → Triple E R Q (f a))
      → Leaves E Q (continue r f)
  Leaves-continue E R Q (value a, w) f h k = (k a).at w h
  Leaves-continue E R Q (error e, w) f h k = h
  Leaves-continue E R Q (aborted x, w) f h k = h

  pub Triple-bind :
      {E P Q R : Camera → Type 0} (m : Act (World D) A) (f : A → Act (World D) B)
      → Triple E P R m
      → ((a : A) → Triple E R Q (f a))
      → Triple E P Q (m >>= f)
  unfolding ◌>>=◌
  Triple-bind {E} {P} {Q} {R} m f hm hf = record {
    at = λ w p. Leaves-continue E R Q (m w) f (hm.at w p) hf;
  }

module _ {D A : Type 0} (E P : Camera → Type 0) where
  Leaves-on_dev :
      (r : Exit A × D) (w : World D)
      → (P w.camera → E w.camera)
      → P w.camera
      → Leaves E P (let (x, d) = r in (x, record w { dev = d }))
  Leaves-on_dev (value a, d) w e p = p
  Leaves-on_dev (error c, d) w e p = e p
  Leaves-on_dev (aborted x, d) w e p = e p

  Leaves-attempt :
      (r : Exit A × World D) → Leaves P P r → ((c : Camera) → P c → E c) → Leaves E P (caught r)
  Leaves-attempt (value a, w) p e = p
  Leaves-attempt (error c, w) p e = p
  Leaves-attempt (aborted x, w) p e = e w.camera p

module _ {D A : Type 0} {E P : Camera → Type 0} where
  -- A const method leaves the camera as it is.
  pub Triple-on_dev : (f : Camera → Act D A) → ((c : Camera) → P c → E c) → Triple E P P (on_dev f)
  unfolding on_dev
  Triple-on_dev f e = record { at = λ w p. Leaves-on_dev E P (f w.camera w.dev) w (e w.camera) p }

  pub Triple-attempt :
      (m : Act (World D) A) → Triple P P P m → ((c : Camera) → P c → E c) → Triple E P P (attempt m)
  unfolding attempt
  Triple-attempt m h e = record { at = λ w p. Leaves-attempt E P (m w) (h.at w p) e }

  pub Triple-deref :
      (r : Result A) → ((c : Camera) → P c → E c) → Triple E P P (deref {S = World D} r)
  unfolding deref
  Triple-deref (ok a) e = record { at = λ w p. p }
  Triple-deref (err c) e = record { at = λ w p. e w.camera p }

  pub Triple-gets : (f : World D → A) → Triple E P P (gets f)
  unfolding gets
  Triple-gets f = record { at = λ w p. p }

module _ {D : Type 0} {E P : Camera → Type 0} where
  pub Triple-guard :
      (b : Bool) (c : ℤ) → ((k : Camera) → P k → E k) → Triple E P P (guard {S = World D} b c)
  unfolding guard
  Triple-guard true c e = record { at = λ w p. p }
  Triple-guard false c e = record { at = λ w p. e w.camera p }

module _ {D : Type 0} {E P Q : Camera → Type 0} where
  pub Triple-update :
      (f : Camera → Camera) → ((c : Camera) → P c → Q (f c)) → Triple E P Q (update {D = D} f)
  unfolding update
  Triple-update f h = record { at = λ w p. h w.camera p }

  pub Triple-pure : ((k : Camera) → P k → Q k) → Triple E P Q (pure {S = World D} tt)
  unfolding pure
  Triple-pure h = record { at = λ w p. h w.camera p }
