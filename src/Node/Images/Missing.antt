-- ===== src/Node/Images/Missing.antt =====
-- The frames that the callback counts as missing, over the frames of one stream.
use vimbax_ros2_driver.Common.{
  ℕ, zero, suc, ◌*◌, ◌/◌, continue, Act, pure, ◌+◌, ◌-◌, ◌%◌, ◌^◌, ◌<◌, ◌≡◌, refl, ap, ◌∙◌, arith,
  Option, none, some, List, [], ◌∷◌, length, Exit, value, error, aborted, Bool-cases, inl, inr, ltb,
  ◌>>=◌,
}
use native.Mathlib.Nat.{mod-eq_of_lt, add-mod_right}
use vimbax_ros2_driver.Camera.Frames.Timestamp.{timestamp_to_ns, nano_den}
use vimbax_ros2_driver.Node.Images.{
  Stamp, ReadyFrame, Surroundings, Publishing, missing_frames, warn, count_frame, frame_stamp,
  publish, publish_frame, publish_frames, stamp_of,
}

abbrev pub sum : List ℕ → ℕ
sum [] = 0
sum (n ∷ ns) = n + sum ns

-- The numbers of the frames grow, from `last` on, and are those of uint64_t.
abbrev pub Ascending : ℕ → List (Surroundings × ReadyFrame) → Type 0
Ascending last [] = Unit {0}
Ascending last ((ros, frame) ∷ frames) =
    (last < frame.frame_id) × (frame.frame_id < 2 ^ 64) × Ascending frame.frame_id frames

abbrev pub last_of : ℕ → List (Surroundings × ReadyFrame) → ℕ
last_of last [] = last
last_of last ((ros, frame) ∷ frames) = last_of frame.frame_id frames

wrapped : (last id : ℕ) → last < id → id < 2 ^ 64 → (id + 2 ^ 64 - last) % 2 ^ 64 ≡ id - last
wrapped last id p q =
    let e : id + 2 ^ 64 - last ≡ (id - last) + 2 ^ 64 = omega arith in
    rw (e, add-mod_right (id - last) (2 ^ 64)) (mod-eq_of_lt (omega arith))

sum-warn :
    (last id : ℕ) (log : List ℕ)
    → last < id
    → id < 2 ^ 64
    → sum (warn (missing_frames (some last) id) log) + suc last ≡ sum log + id
unfolding missing_frames warn
sum-warn last id log p q = rw (wrapped last id p q) (ground arith)

timestamp_to_ns-value :
    (frequency : Option ℕ) (timestamp : ℕ)
    → (frequency ≡ some 0 → ⊥)
    → (ns : ℕ) × (timestamp_to_ns frequency timestamp ≡ value ns)
unfolding timestamp_to_ns
timestamp_to_ns-value none timestamp h = (timestamp, refl)
timestamp_to_ns-value (some zero) timestamp h = absurd (h refl)
timestamp_to_ns-value (some (suc f)) timestamp h = elim (Bool-cases (ltb nano_den (suc f))) [
  | inl fast ↦ (timestamp / (suc f / nano_den), rw fast refl)
  | inr slow ↦ (timestamp * (nano_den / suc f) % 2 ^ 64, ground arith)
]

frame_stamp-value :
    (frequency : Option ℕ) (ros : Surroundings) (frame : ReadyFrame)
    → (frequency ≡ some 0 → ⊥)
    → (stamp : Stamp) × (frame_stamp frequency ros frame ≡ value stamp)
unfolding frame_stamp timestamp_to_ns
frame_stamp-value frequency ros frame h = elim (Bool-cases ros.use_ros_time) [
  | inl of_ros ↦ (ros.now, rw of_ros refl)
  | inr of_camera ↦
      let (ns, e) = timestamp_to_ns-value frequency frame.timestamp h in
      (stamp_of ns, rw (of_camera, e) refl)
]

-- What one frame does to the node, the warnings and the images.
Handled : ReadyFrame → Publishing → Exit (Unit {0}) × Publishing → Type 0
Handled frame s (r, s') =
    (r ≡ value tt)
    × (s'.node.last_frame_id ≡ some frame.frame_id)
    × (s'.missing ≡ warn (missing_frames s.node.last_frame_id frame.frame_id) s.missing)
    × (length s'.published ≡ suc (length s.published))

publish-Handled :
    (ros : Surroundings) (frame : ReadyFrame) (r : Exit Stamp) (stamp : Stamp) (s : Publishing)
    → r ≡ value stamp
    → Handled frame s (publish ros frame r (count_frame frame s))
unfolding Handled publish count_frame
publish-Handled ros frame (value _) stamp s e = (refl, refl, refl, refl)
publish-Handled ros frame (error _) stamp s e = absurd (ground arith)
publish-Handled ros frame (aborted _) stamp s e = absurd (ground arith)

publish_frame-Handled :
    (frequency : Option ℕ) (ros : Surroundings) (frame : ReadyFrame) (s : Publishing)
    → (frequency ≡ some 0 → ⊥)
    → Handled frame s (publish_frame frequency ros frame s)
unfolding publish_frame
publish_frame-Handled frequency ros frame s h =
    let (stamp, e) = frame_stamp-value frequency ros frame h in
    publish-Handled ros frame (frame_stamp frequency ros frame) stamp s e

-- Over frames whose numbers grow from `last` on.
Counted : ℕ → List (Surroundings × ReadyFrame) → Publishing → Exit (Unit {0}) × Publishing → Type 0
Counted last frames s (r, s') =
    (r ≡ value tt)
    × (length s'.published ≡ length s.published + length frames)
    × (sum s'.missing + length frames + last ≡ sum s.missing + last_of last frames)

continue-Counted :
    (last : ℕ) (ros : Surroundings) (frame : ReadyFrame) (frames : List (Surroundings × ReadyFrame))
    (s : Publishing) (r : Exit (Unit {0}) × Publishing) (rest : Act Publishing (Unit {0}))
    → s.node.last_frame_id ≡ some last
    → last < frame.frame_id
    → frame.frame_id < 2 ^ 64
    → Handled frame s r
    → ((s' : Publishing)
        → s'.node.last_frame_id ≡ some frame.frame_id
        → Counted frame.frame_id frames s' (rest s'))
    → Counted last ((ros, frame) ∷ frames) s (continue r (λ _. rest))
unfolding Counted Handled
continue-Counted last ros frame frames s (value _, s') rest e p q h k =
    let c = k s' h.1 in
    let w : sum s'.missing + suc last ≡ sum s.missing + frame.frame_id =
      rw (h.2, e) (sum-warn last frame.frame_id s.missing p q) in
    (c.0, omega (arith, c.1, h.3), omega (arith, c.2, w))
continue-Counted last ros frame frames s (error _, s') rest e p q h k = absurd (ground arith)
continue-Counted last ros frame frames s (aborted _, s') rest e p q h k = absurd (ground arith)

publish_frames-Counted :
    (frequency : Option ℕ) (last : ℕ) (frames : List (Surroundings × ReadyFrame)) (s : Publishing)
    → (frequency ≡ some 0 → ⊥)
    → s.node.last_frame_id ≡ some last
    → Ascending last frames
    → Counted last frames s (publish_frames frequency frames s)
unfolding Counted publish_frames pure ◌>>=◌
publish_frames-Counted frequency last [] s h e a = (refl, omega arith, omega arith)
publish_frames-Counted frequency last ((ros, frame) ∷ frames) s h e a =
    continue-Counted last ros frame frames s (publish_frame frequency ros frame s)
      (publish_frames frequency frames) e (a.0) (a.1)
      (publish_frame-Handled frequency ros frame s h)
      (λ s' e'. publish_frames-Counted frequency frame.frame_id frames s' h e' (a.2))

-- From the first frame of a stream on.
Begun :
    ReadyFrame
    → List (Surroundings × ReadyFrame)
    → Publishing
    → Exit (Unit {0}) × Publishing
    → Type 0
Begun first frames s (r, s') =
    (r ≡ value tt)
    × (length s'.published ≡ length s.published + suc (length frames))
    × (sum s'.missing + length frames + first.frame_id
        ≡ sum s.missing + last_of first.frame_id frames)

continue-Begun :
    (first : ReadyFrame) (frames : List (Surroundings × ReadyFrame)) (s : Publishing)
    (r : Exit (Unit {0}) × Publishing) (rest : Act Publishing (Unit {0}))
    → s.node.last_frame_id ≡ none
    → Handled first s r
    → ((s' : Publishing)
        → s'.node.last_frame_id ≡ some first.frame_id
        → Counted first.frame_id frames s' (rest s'))
    → Begun first frames s (continue r (λ _. rest))
unfolding Begun Counted Handled missing_frames warn
continue-Begun first frames s (value _, s') rest e h k =
    let c = k s' h.1 in
    let w : s'.missing ≡ s.missing =
      h.2 ∙ ap (λ o. warn (missing_frames o first.frame_id) s.missing) e in
    (c.0, omega (arith, c.1, h.3), omega (arith, c.2, ap sum w))
continue-Begun first frames s (error _, s') rest e h k = absurd (ground arith)
continue-Begun first frames s (aborted _, s') rest e h k = absurd (ground arith)

-- On a camera whose timestamp frequency is not 0, at the start of a stream: when the numbers of the
-- frames grow, every frame is published, and the first number, the warnings' counts of missing frames
-- and the number of frames behind the first add up to the last number.
pub publish_frames-missing :
    (frequency : Option ℕ) (ros : Surroundings) (first : ReadyFrame)
    (frames : List (Surroundings × ReadyFrame)) (s : Publishing)
    → (frequency ≡ some 0 → ⊥)
    → s.node.last_frame_id ≡ none
    → Ascending first.frame_id frames
    → let (r, s') = publish_frames frequency ((ros, first) ∷ frames) s in
      (r ≡ value tt)
      × (length s'.published ≡ length s.published + suc (length frames))
      × (sum s'.missing + length frames + first.frame_id
          ≡ sum s.missing + last_of first.frame_id frames)
unfolding Begun publish_frames ◌>>=◌
publish_frames-missing frequency ros first frames s h e a =
    continue-Begun first frames s (publish_frame frequency ros first s)
      (publish_frames frequency frames) e (publish_frame-Handled frequency ros first s h)
      (λ s' e'. publish_frames-Counted frequency first.frame_id frames s' h e' a)
