-- ===== src/Camera/Threads/Order.antt =====
-- What becomes of each frame, over the interleavings of the three threads.
pub mod Fates
pub mod Called
use vimbax_ros2_driver.Common.{
  ◌≡◌, refl, ap, sym, ◌∙◌, Bool, true, false, Option, none, some, List, [], ◌∷◌, ◌++◌, map, arith,
  Option-cases, inl, inr, ◌||◌, ◌&&◌,
}
use mathlib.Core.List.{append-nil, append_assoc}
use vimbax_ros2_driver.Camera.{Frame}
use vimbax_ros2_driver.Camera.Threads.{
  Fate, taken, dropped, Thread, Processing, Stopping, Callback, Threads, Move, process, stop,
  call_back, wake, arrive, move_step, move_run, process_step, stop_step, call_back_step, pop_front,
}

abbrev pub frame_of : Fate → Frame
frame_of (taken f) = f
frame_of (dropped f) = f

abbrev pub is_taken : Fate → Bool
is_taken (taken f) = true
is_taken (dropped f) = false

abbrev pub all_taken : List Fate → Bool
all_taken [] = true
all_taken (x ∷ xs) = is_taken x && all_taken xs

abbrev pub process_fates : Processing → List Frame → List Fate
process_fates Processing.popping (f ∷ queue) = taken f ∷ []
process_fates p queue = []

abbrev pub stop_fates : Stopping → List Frame → List Fate
stop_fates Stopping.draining queue = map dropped queue
stop_fates p queue = []

abbrev pub fates_in : Move → Threads → List Fate
fates_in process s = process_fates s.processing s.frame_ready_queue
fates_in stop s = stop_fates s.stopping s.frame_ready_queue
fates_in m s = []

-- What a run adds to the record.
unfoldable pub fates : List Move → Threads → List Fate
unfolding move_step
fates [] s = []
fates (m ∷ ms) s = fates_in m s ++ elim (move_step m s) [ none ↦ [] | some t ↦ fates ms t ]

abbrev pub arrived_in : Move → List Frame
arrived_in (arrive f) = f ∷ []
arrived_in m = []

abbrev pub arrived : List Move → List Frame
arrived [] = []
arrived (m ∷ ms) = arrived_in m ++ arrived ms

-- The frame that the callback has not yet pushed.
abbrev pub pending : Callback → List Frame
pending (Callback.locking f) = f ∷ []
pending (Callback.pushing f) = f ∷ []
pending c = []

abbrev pub in_flight : Threads → List Frame
in_flight s = s.frame_ready_queue ++ pending s.callback

pop_front-fates :
    (queue : List Frame) (s t : Threads)
    → s.frame_ready_queue ≡ queue
    → some (pop_front queue s) ≡ some t
    → (in_flight s ≡ map frame_of (process_fates Processing.popping queue) ++ in_flight t)
      × (t.log ≡ s.log ++ process_fates Processing.popping queue)
pop_front-fates [] s t e h = let n = append-nil s.log in (ground arith, ground arith)
pop_front-fates (f ∷ queue) s t e h = (ground arith, ground arith)

process_step-fates :
    (p : Processing) (s t : Threads)
    → s.processing ≡ p
    → process_step p s ≡ some t
    → (in_flight s ≡ map frame_of (process_fates p s.frame_ready_queue) ++ in_flight t)
      × (t.log ≡ s.log ++ process_fates p s.frame_ready_queue)
unfolding process_step
process_step-fates Processing.popping s t e h = pop_front-fates s.frame_ready_queue s t refl h
process_step-fates (Processing.leaving none) s t e h =
    let n = append-nil s.log in (ground arith, ground arith)
process_step-fates (Processing.leaving (some f)) s t e h =
    let n = append-nil s.log in (ground arith, ground arith)
process_step-fates p s t e h = let n = append-nil s.log in (ground arith, ground arith)

frames_of-dropped : (queue : List Frame) → map frame_of (map dropped queue) ≡ queue
frames_of-dropped [] = refl
frames_of-dropped (f ∷ queue) = ap (◌∷◌ f) (frames_of-dropped queue)

stop_step-fates :
    (p : Stopping) (s t : Threads)
    → s.stopping ≡ p
    → stop_step p s ≡ some t
    → (in_flight s ≡ map frame_of (stop_fates p s.frame_ready_queue) ++ in_flight t)
      × (t.log ≡ s.log ++ stop_fates p s.frame_ready_queue)
unfolding stop_step
stop_step-fates Stopping.draining s t e h =
    let q = frames_of-dropped s.frame_ready_queue in (ground arith, ground arith)
stop_step-fates p s t e h = let n = append-nil s.log in (ground arith, ground arith)

call_back_step-fates :
    (p : Callback) (s t : Threads)
    → s.callback ≡ p
    → call_back_step p s ≡ some t
    → (in_flight s ≡ in_flight t) × (t.log ≡ s.log)
unfolding call_back_step
call_back_step-fates (Callback.pushing f) s t e h =
    let n = append-nil (s.frame_ready_queue ++ f ∷ []) in (ground arith, ground arith)
call_back_step-fates p s t e h = (ground arith, ground arith)

arrive-fates :
    (c : Callback) (f : Frame) (s t : Threads)
    → s.callback ≡ c
    → move_step (arrive f) s ≡ some t
    → (in_flight s ++ f ∷ [] ≡ in_flight t) × (t.log ≡ s.log)
unfolding move_step
arrive-fates Callback.quiet f s t e h =
    let z = append-nil s.frame_ready_queue in (ground arith, ground arith)
arrive-fates c f s t e h = (ground arith, ground arith)

-- A move takes frames from those that are under way, and records them.
move_step-fates :
    (m : Move) (s t : Threads)
    → move_step m s ≡ some t
    → (in_flight s ++ arrived_in m ≡ map frame_of (fates_in m s) ++ in_flight t)
      × (t.log ≡ s.log ++ fates_in m s)
unfolding move_step
move_step-fates process s t h =
    let f = process_step-fates s.processing s t refl h in (append-nil (in_flight s) ∙ f.0, f.1)
move_step-fates stop s t h =
    let f = stop_step-fates s.stopping s t refl h in (append-nil (in_flight s) ∙ f.0, f.1)
move_step-fates call_back s t h =
    let f = call_back_step-fates s.callback s t refl h in
    (append-nil (in_flight s) ∙ f.0, f.1 ∙ sym (append-nil s.log))
move_step-fates wake s t h =
    let n = append-nil s.log in (append-nil (in_flight s) ∙ ground arith, ground arith)
move_step-fates (arrive f) s t h =
    let g = arrive-fates s.callback f s t refl h in (g.0, g.1 ∙ sym (append-nil s.log))

frames_of-append :
    (xs ys : List Fate) → map frame_of (xs ++ ys) ≡ map frame_of xs ++ map frame_of ys
frames_of-append [] ys = refl
frames_of-append (x ∷ xs) ys = ap (◌∷◌ (frame_of x)) (frames_of-append xs ys)

-- Two stretches of a run.
joined_fates :
    (a b c x y : List Frame) (xs ys : List Fate)
    → a ++ x ≡ map frame_of xs ++ b
    → b ++ y ≡ map frame_of ys ++ c
    → a ++ (x ++ y) ≡ map frame_of (xs ++ ys) ++ c
joined_fates a b c x y xs ys p q =
    sym (append_assoc a x y)
    ∙ ap (λ (l : List Frame). l ++ y) p
    ∙ append_assoc (map frame_of xs) b y
    ∙ ap (λ (l : List Frame). map frame_of xs ++ l) q
    ∙ sym (append_assoc (map frame_of xs) (map frame_of ys) c)
    ∙ ap (λ (l : List Frame). l ++ c) (sym (frames_of-append xs ys))

pub move_run-fates :
    (ms : List Move) (s t : Threads)
    → move_run ms s ≡ some t
    → (in_flight s ++ arrived ms ≡ map frame_of (fates ms s) ++ in_flight t)
      × (t.log ≡ s.log ++ fates ms s)
unfolding move_run fates
move_run-fates [] s t h =
    let n = append-nil s.log in (append-nil (in_flight s) ∙ ground arith, ground arith)
move_run-fates (m ∷ ms) s t h = elim (Option-cases (move_step m s)) [
  | inl e ↦ absurd (ground arith)
  | inr (u, e) ↦
      let r = move_run-fates ms u t (ground arith) in
      let g = move_step-fates m s u e in
      let f : fates (m ∷ ms) s ≡ fates_in m s ++ fates ms u = rw e refl in
      (
        joined_fates (in_flight s) (in_flight u) (in_flight t) (arrived_in m) (arrived ms)
              (fates_in m s) (fates ms u) g.0 r.0
            ∙ ap (λ (l : List Fate). map frame_of l ++ in_flight t) (sym f),
        r.1
            ∙ ap (λ (l : List Fate). l ++ fates ms u) g.1
            ∙ append_assoc s.log (fates_in m s) (fates ms u)
            ∙ ap (λ (l : List Fate). s.log ++ l) (sym f),
      )
]
