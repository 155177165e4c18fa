-- ===== src/Camera/Queue/Order.antt =====
-- The processing thread handles the frames in the order in which they came.
use vimbax_ros2_driver.Common.{
  ℕ, suc, ◌+◌, ◌<◌, length-append, ◌≡◌, refl, sym, ap, ◌∙◌, Bool, true, false, Option, none, some,
  List, [], ◌∷◌, ◌++◌, length, Option-cases, inl, inr, arith,
}
use mathlib.Core.Path.{subst}
use mathlib.Core.List.{append_assoc, append-nil}
use vimbax_ros2_driver.Camera.Queue.{
  Places, FrameEvent, complete, incomplete, take_next, finish, hand_back, requeue, take_from,
  finish_with, frame_step, frame_run,
}

-- The complete frames that the events bring.
abbrev pub brought : FrameEvent → List ℕ
brought (complete i) = i ∷ []
brought (incomplete i ok) = []
brought take_next = []
brought (finish ok) = []

abbrev pub brought_by : List FrameEvent → List ℕ
brought_by [] = []
brought_by (e ∷ es) = brought e ++ brought_by es

-- How often the thread takes a frame.
abbrev pub takes : List FrameEvent → ℕ
takes [] = 0
takes (take_next ∷ es) = suc (takes es)
takes (complete i ∷ es) = takes es
takes (incomplete i ok ∷ es) = takes es
takes (finish ok ∷ es) = takes es

-- The frame that the thread handles after it has taken one.
abbrev pub taken_in : FrameEvent → Places → List ℕ
taken_in take_next p = elim p.busy [ none ↦ [] | some i ↦ i ∷ [] ]
taken_in e p = []

-- The frames that the thread handles over a run, in order.
unfoldable pub taken_by : List FrameEvent → Places → List ℕ
unfolding frame_step
taken_by [] p = []
taken_by (e ∷ es) p = elim (frame_step e p) [
  | none ↦ []
  | some p' ↦ taken_in e p' ++ taken_by es p'
]

-- They are, with what the run leaves in the queue, those that were in it and those that came.
abbrev pub InOrder : List FrameEvent → Places → Places → Type 0
InOrder es p after =
    (p.ready ++ brought_by es ≡ taken_by es p ++ after.ready) × (length (taken_by es p) ≡ takes es)

-- What one event takes from the queue.
OneStep : FrameEvent → Places → Option Places → Type 0
OneStep e p none = Unit {0}
OneStep e p (some p') =
    (p.ready ++ brought e ≡ taken_in e p' ++ p'.ready) × (length (taken_in e p') ≡ takes (e ∷ []))

requeue-ready : (ok : Bool) (i : ℕ) (p : Places) → (requeue ok i p).ready ≡ p.ready
requeue-ready true i p = refl
requeue-ready false i p = refl

take_from-OneStep :
    (busy : Option ℕ) (ready : List ℕ) (p : Places)
    → p.ready ≡ ready
    → OneStep take_next p (take_from busy ready p)
unfolding OneStep
take_from-OneStep none [] p e = tt
take_from-OneStep none (i ∷ ready) p e = (append-nil p.ready ∙ e, refl)
take_from-OneStep (some j) ready p e = tt

finish_with-OneStep :
    (busy : Option ℕ) (ok : Bool) (p : Places) → OneStep (finish ok) p (finish_with busy ok p)
unfolding OneStep
finish_with-OneStep none ok p = tt
finish_with-OneStep (some i) true p = (append-nil p.ready, refl)
finish_with-OneStep (some i) false p = (append-nil p.ready, refl)

frame_step-OneStep : (e : FrameEvent) (p : Places) → OneStep e p (frame_step e p)
unfolding frame_step OneStep
frame_step-OneStep (complete i) p = elim (Option-cases (hand_back i p.queued)) [
  | inl n ↦ simp (frame_step, n) tt
  | inr (rest, s) ↦ simp (frame_step, s) (refl, refl)
]
frame_step-OneStep (incomplete i ok) p = elim (Option-cases (hand_back i p.queued)) [
  | inl n ↦ simp (frame_step, n) tt
  | inr (rest, s) ↦ simp (frame_step, s, requeue-ready) (append-nil p.ready, refl)
]
frame_step-OneStep take_next p = take_from-OneStep p.busy p.ready p refl
frame_step-OneStep (finish ok) p = finish_with-OneStep p.busy ok p

takes-cons : (e : FrameEvent) (es : List FrameEvent) → takes (e ∷ []) + takes es ≡ takes (e ∷ es)
takes-cons (complete i) es = omega arith
takes-cons (incomplete i ok) es = omega arith
takes-cons take_next es = omega arith
takes-cons (finish ok) es = omega arith

frame_run-InOrder :
    (es : List FrameEvent) (p p' : Places) → frame_run es p ≡ some p' → InOrder es p p'
unfolding frame_run taken_by OneStep
frame_run-InOrder [] p p' h =
    let e : p ≡ p' = ground arith in (append-nil p.ready ∙ ap (λ (q : Places). q.ready) e, refl)
frame_run-InOrder (e ∷ es) p p' h = elim (Option-cases (frame_step e p)) [
  | inl n ↦ absurd (ground arith)
  | inr (p1, s) ↦
      let (a, n) = subst (OneStep e p) s (frame_step-OneStep e p) in
      let (b, m) = frame_run-InOrder es p1 p' (ground arith) in
      let t = taken_in e p1 in
      let u = taken_by es p1 in
      let f : taken_by (e ∷ es) p ≡ t ++ u = rw (taken_by, s) refl in
      (
        sym (append_assoc p.ready (brought e) (brought_by es))
            ∙ ap (λ x. x ++ brought_by es) a
            ∙ append_assoc t p1.ready (brought_by es)
            ∙ ap (λ x. t ++ x) b
            ∙ sym (append_assoc t u p'.ready)
            ∙ ap (λ x. x ++ p'.ready) (sym f),
        ap length f ∙ length-append t u ∙ omega (arith, n, m, takes-cons e es),
      )
]

-- A list that agrees with another one and is long enough has what stands there.
reaches :
    (xs t : List ℕ) (i : ℕ) (ys r : List ℕ)
    → xs ++ i ∷ ys ≡ t ++ r
    → length xs < length t
    → (zs : List ℕ) × (t ≡ xs ++ i ∷ zs)
reaches xs [] i ys r e l = absurd (ground arith)
reaches [] (j ∷ t) i ys r e l = (t, ground (arith, e))
reaches (x ∷ xs) (j ∷ t) i ys r e l =
    let (zs, k) = reaches xs t i ys r (ground (arith, e)) (ground (arith, l)) in
    (zs, ground (arith, e, k))

-- Let a frame stand in the queue of ready frames, and let the events happen in any order, further
-- frames among them. If the thread has begun to handle more frames than stand before it, then it has begun
-- to handle this one, after exactly those; the frames that it has begun to handle, followed by what is
-- left in the queue, are the old queue followed by the frames that came, and they are as many as the
-- times it has taken one.
pub frame_run-reaches :
    (es : List FrameEvent) (p p' : Places) (xs ys : List ℕ) (i : ℕ)
    → frame_run es p ≡ some p'
    → p.ready ≡ xs ++ i ∷ ys
    → length xs < takes es
    → ((zs : List ℕ) × (taken_by es p ≡ xs ++ i ∷ zs)) × InOrder es p p'
frame_run-reaches es p p' xs ys i e r l =
    let (a, n) = frame_run-InOrder es p p' e in
    (
      reaches xs (taken_by es p) i (ys ++ brought_by es) p'.ready
          (sym (append_assoc xs (i ∷ ys) (brought_by es))
            ∙ ap (λ x. x ++ brought_by es) (sym r)
            ∙ a)
          (omega (arith, n, l)),
      (a, n),
    )
