-- ===== src/Camera/Threads/Order/Fates.antt =====
-- Who takes the frames before stop_streaming empties the queue.
use vimbax_ros2_driver.Common.{
  ◌≡◌, refl, ap, sym, Bool, true, false, none, some, List, [], ◌∷◌, ◌++◌, arith, Option-cases, inl,
  inr, ◌⊎◌,
}
use mathlib.Core.Path.{subst}
use vimbax_ros2_driver.Camera.{Frame}
use vimbax_ros2_driver.Camera.Threads.{
  Fate, taken, dropped, Processing, Stopping, Callback, Threads, Move, process, stop, call_back,
  wake, arrive, move_step, move_run, process_step, stop_step, call_back_step, pop_front,
}
use vimbax_ros2_driver.Camera.Threads.Emptied.{drained}
use vimbax_ros2_driver.Camera.Threads.Order.{all_taken, fates_in, stop_fates, fates, process_fates}

pop_front-stopping :
    (queue : List Frame) (s t : Threads)
    → some (pop_front queue s) ≡ some t
    → t.stopping ≡ s.stopping
pop_front-stopping [] s t h = ground arith
pop_front-stopping (f ∷ queue) s t h = ground arith

process_step-stopping :
    (p : Processing) (s t : Threads) → process_step p s ≡ some t → t.stopping ≡ s.stopping
unfolding process_step
process_step-stopping Processing.popping s t h = pop_front-stopping s.frame_ready_queue s t h
process_step-stopping (Processing.leaving none) s t h = ground arith
process_step-stopping (Processing.leaving (some f)) s t h = ground arith
process_step-stopping p s t h = ground arith

call_back_step-stopping :
    (p : Callback) (s t : Threads) → call_back_step p s ≡ some t → t.stopping ≡ s.stopping
unfolding call_back_step
call_back_step-stopping p s t h = ground arith

-- Once the queue has been emptied, that stays so, and before, no frame is taken out unhandled.
stop_step-fates_told :
    (p : Stopping) (s t : Threads)
    → s.stopping ≡ p
    → stop_step p s ≡ some t
    → (drained t.stopping ≡ true)
      ⊎ ((drained p ≡ false) × (all_taken (stop_fates p s.frame_ready_queue) ≡ true))
unfolding stop_step
stop_step-fates_told p s t e h = ground arith

all_taken-process_fates :
    (p : Processing) (queue : List Frame) → all_taken (process_fates p queue) ≡ true
all_taken-process_fates Processing.popping [] = refl
all_taken-process_fates Processing.popping (f ∷ queue) = refl
all_taken-process_fates p queue = refl

-- What a run has shown so far, from a state whose queue may have been emptied.
abbrev pub Told : Bool → List Fate → Bool → Type 0
Told before fs after = (after ≡ true) ⊎ ((before ≡ false) × (all_taken fs ≡ true))

all_taken-append :
    (xs ys : List Fate) → all_taken xs ≡ true → all_taken ys ≡ true → all_taken (xs ++ ys) ≡ true
all_taken-append [] ys p q = q
all_taken-append (taken f ∷ xs) ys p q = all_taken-append xs ys p q
all_taken-append (dropped f ∷ xs) ys p q = absurd (ground arith)

passed_on : (a b c : Bool) (xs ys : List Fate) → Told a xs b → Told b ys c → Told a (xs ++ ys) c
passed_on a b c xs ys p (inl q) = inl q
passed_on a b c xs ys (inl p) (inr q) = absurd (ground arith)
passed_on a b c xs ys (inr p) (inr q) = inr (p.0, all_taken-append xs ys p.1 q.1)

-- A move of another thread.
unchanged : (b c : Bool) (fs : List Fate) → c ≡ b → all_taken fs ≡ true → Told b fs c
unchanged true c fs e a = inl e
unchanged false c fs e a = inr (refl, a)

move_step-Told :
    (m : Move) (s t : Threads)
    → move_step m s ≡ some t
    → Told (drained s.stopping) (fates_in m s) (drained t.stopping)
unfolding move_step
move_step-Told process s t h =
    unchanged _ _ (process_fates s.processing s.frame_ready_queue)
      (ap drained (process_step-stopping s.processing s t h))
      (all_taken-process_fates s.processing s.frame_ready_queue)
move_step-Told stop s t h = stop_step-fates_told s.stopping s t refl h
move_step-Told call_back s t h =
    unchanged _ _ [] (ap drained (call_back_step-stopping s.callback s t h)) refl
move_step-Told wake s t h =
    let e : t.stopping ≡ s.stopping = ground arith in unchanged _ _ [] (ap drained e) refl
move_step-Told (arrive f) s t h =
    let e : t.stopping ≡ s.stopping = ground arith in unchanged _ _ [] (ap drained e) refl

nothing_yet : (b : Bool) → Told b [] b
nothing_yet true = inl refl
nothing_yet false = inr (refl, refl)

pub move_run-Told :
    (ms : List Move) (s t : Threads)
    → move_run ms s ≡ some t
    → Told (drained s.stopping) (fates ms s) (drained t.stopping)
unfolding move_run fates
move_run-Told [] s t h =
    let e : drained s.stopping ≡ drained t.stopping = ground arith in
    subst (Told (drained s.stopping) []) e (nothing_yet (drained s.stopping))
move_run-Told (m ∷ ms) s t h = elim (Option-cases (move_step m s)) [
  | inl e ↦ absurd (ground arith)
  | inr (u, e) ↦
      let r : move_run ms u ≡ some t = ground arith in
      let f : fates (m ∷ ms) s ≡ fates_in m s ++ fates ms u = rw e refl in
      subst (λ (l : List Fate). Told (drained s.stopping) l (drained t.stopping)) (sym f)
        (passed_on (drained s.stopping) (drained u.stopping) (drained t.stopping) (fates_in m s)
          (fates ms u) (move_step-Told m s u e) (move_run-Told ms u t r))
]

pub settled : (b : Bool) (fs : List Fate) → Told false fs b → (b ≡ true) ⊎ (all_taken fs ≡ true)
settled b fs (inl e) = inl e
settled b fs (inr e) = inr e.1
