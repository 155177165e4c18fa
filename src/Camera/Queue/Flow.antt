-- ===== src/Camera/Queue/Flow.antt =====
-- No frame is in two places, none gets out of them, and the frames are handled in their order.
use vimbax_ros2_driver.Common.{
  ℕ, suc, ◌+◌, ◌≡◌, refl, Bool, true, false, Option, none, some, List, [], ◌∷◌, ◌++◌, ◌==◌, ==_iff,
  Option-cases, inl, inr, arith, if◌then◌else◌,
}
use mathlib.Core.Path.{subst}
use vimbax_ros2_driver.Camera.Queue.{
  Places, FrameEvent, complete, incomplete, take_next, finish, hand_back, requeue, take_from,
  finish_with, frame_step, frame_run,
}

-- How often a frame occurs.
abbrev pub occurs : ℕ → List ℕ → ℕ
occurs i [] = 0
occurs i (j ∷ xs) = if i == j then suc (occurs i xs) else occurs i xs

abbrev pub occurs_in : ℕ → Option ℕ → ℕ
occurs_in i none = 0
occurs_in i (some j) = if i == j then 1 else 0

-- In how many places a frame is.
abbrev pub places_of : ℕ → Places → ℕ
places_of i p = occurs i p.queued + occurs i p.ready + occurs_in i p.busy + occurs i p.lost

occurs-append : (i : ℕ) (xs ys : List ℕ) → occurs i (xs ++ ys) ≡ occurs i xs + occurs i ys
occurs-append i [] ys = omega arith
occurs-append i (j ∷ xs) ys = ground (arith, occurs-append i xs ys)

occurs-hand_back :
    (i k : ℕ) (xs ys : List ℕ)
    → hand_back k xs ≡ some ys
    → occurs i xs ≡ occurs i (k ∷ []) + occurs i ys
unfolding hand_back
occurs-hand_back i k [] ys e = ground arith
occurs-hand_back i k (j ∷ xs) ys e = elim (Option-cases (hand_back k xs)) [
  | inl n ↦ ground (arith, ==_iff k j)
  | inr (zs, s) ↦ ground (arith, ==_iff k j, occurs-hand_back i k xs zs s)
]

places_of-requeue :
    (i k : ℕ) (ok : Bool) (p : Places)
    → places_of i (requeue ok k p) ≡ places_of i p + occurs i (k ∷ [])
places_of-requeue i k true p = omega (arith, occurs-append i p.queued (k ∷ []))
places_of-requeue i k false p = ground arith

-- As many places after a step, if it can happen, as before.
abbrev pub Kept : ℕ → ℕ → Option Places → Type 0
Kept i n none = Unit {0}
Kept i n (some p) = places_of i p ≡ n

Kept-take_from :
    (i : ℕ) (busy : Option ℕ) (ready : List ℕ) (p : Places)
    → p.busy ≡ busy
    → p.ready ≡ ready
    → Kept i (places_of i p) (take_from busy ready p)
Kept-take_from i none [] p b r = tt
Kept-take_from i none (j ∷ ready) p b r = rw (b, r) (ground arith)
Kept-take_from i (some j) ready p b r = tt

Kept-finish_with :
    (i : ℕ) (busy : Option ℕ) (ok : Bool) (p : Places)
    → p.busy ≡ busy
    → Kept i (places_of i p) (finish_with busy ok p)
Kept-finish_with i none ok p b = tt
Kept-finish_with i (some j) ok p b =
    rw b (ground (arith, places_of-requeue i j ok (record p { busy = none })))

Kept-frame_step : (i : ℕ) (e : FrameEvent) (p : Places) → Kept i (places_of i p) (frame_step e p)
unfolding frame_step
Kept-frame_step i (complete k) p = elim (Option-cases (hand_back k p.queued)) [
  | inl n ↦ simp (frame_step, n) tt
  | inr (rest, s) ↦
      simp (frame_step, s)
        (omega (arith, occurs-hand_back i k p.queued rest s, occurs-append i p.ready (k ∷ [])))
]
Kept-frame_step i (incomplete k ok) p = elim (Option-cases (hand_back k p.queued)) [
  | inl n ↦ simp (frame_step, n) tt
  | inr (rest, s) ↦
      simp (frame_step, s)
        (omega (
          arith,
          occurs-hand_back i k p.queued rest s,
          places_of-requeue i k ok (record p { queued = rest }),
        ))
]
Kept-frame_step i take_next p = Kept-take_from i p.busy p.ready p refl refl
Kept-frame_step i (finish ok) p = Kept-finish_with i p.busy ok p refl

-- Whatever happens to the frames, in whatever order: as long as it can happen, each frame is in as
-- many places as at the start, so that no frame is handled twice at once, and one that is gone was
-- lost to a failed call of `queue()`.
pub Kept-frame_run :
    (i : ℕ) (es : List FrameEvent) (p : Places) → Kept i (places_of i p) (frame_run es p)
unfolding frame_run
Kept-frame_run i [] p = refl
Kept-frame_run i (e ∷ es) p = elim (Option-cases (frame_step e p)) [
  | inl n ↦ simp (frame_run, n) tt
  | inr (p', s) ↦
      let k : places_of i p' ≡ places_of i p =
        subst (λ (o : Option Places). Kept i (places_of i p) o) s (Kept-frame_step i e p) in
      simp (frame_run, s) (subst (λ (n : ℕ). Kept i n (frame_run es p')) k (Kept-frame_run i es p'))
]
