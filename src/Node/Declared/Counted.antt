-- ===== src/Node/Declared/Counted.antt =====
-- The number of buffers that a stream runs with, while the parameters change.
use vimbax_ros2_driver.Common.{
  ℕ, ◌≤◌, ◌≡◌, refl, ap, sym, ◌∙◌, String, Bool, true, false, Option, none, some, List, [], ◌∷◌,
  map, to_u64, ℤ, pos, value, aborted, null_dereference, arith, Bool-cases, inl, inr, ◌⊎◌,
  if◌then◌else◌, pure, ◌>>=◌,
}
use vimbax_ros2_driver.Camera.{Camera, is_streaming, active}
use vimbax_ros2_driver.Camera.Stream.Sessions.{
  SessionIn, idle, streaming, broken_start, broken_stop,
}
use vimbax_ros2_driver.Node.{NodeWorld, ask}
use vimbax_ros2_driver.Node.Sessions.{SessionInOf}
use vimbax_ros2_driver.Node.Status.{on_set_parameters}
use vimbax_ros2_driver.Node.Declared.{
  Setting, camera_id, settings_file, buffer_count, autostream, command_feature_timeout,
  use_ros_time, name_of, Values, store, store_all, all_checked, IntegerRange, ParameterDescriptor,
  descriptor, buffer_count_range,
}

-- The start was given the number of the parameter.
abbrev pub Sized : Values → ℕ → ℕ → Type 0
Sized values n cb = n ≡ to_u64 values.buffer_count_value

abbrev pub SizedOf : Values → Option Camera → Type 0
SizedOf values = SessionInOf (Sized values)

-- A camera that does not stream.
abbrev pub Quiet : Option Camera → Type 0
Quiet none = ⊥
Quiet (some c) = is_streaming c ≡ false

-- What an accepted change tells: of the number, or of the camera.
abbrev pub Harmless : List Setting → Option Camera → Type 0
Harmless ss o =
    ((values : Values) → (store_all ss values).buffer_count_value ≡ values.buffer_count_value)
    ⊎ Quiet o

accepts_after :
    {D : Type 0} (s : Setting) (ss : List Setting) (w w' : NodeWorld D)
    → ((values : Values) → (store s values).buffer_count_value ≡ values.buffer_count_value)
    → (w'.node ≡ w.node) × Harmless ss w.node.camera
    → (w'.node ≡ w.node) × Harmless (s ∷ ss) w.node.camera
accepts_after s ss w w' k (e, inl h) = (e, inl (λ values. h (store s values) ∙ k values))
accepts_after s ss w w' k (e, inr h) = (e, inr h)

number_without_camera :
    {D : Type 0} (names : List String) (w : NodeWorld D)
    → w.node.camera ≡ none
    → on_set_parameters ("buffer_count" ∷ names) w ≡ (aborted null_dereference, w)
unfolding on_set_parameters ask ◌>>=◌
number_without_camera names w e = rw e refl

number_with_camera :
    {D : Type 0} (names : List String) (c : Camera) (w : NodeWorld D)
    → w.node.camera ≡ some c
    → on_set_parameters ("buffer_count" ∷ names) w
      ≡ (if is_streaming c then pure false else on_set_parameters names) w
unfolding on_set_parameters ask ◌>>=◌ pure
number_with_camera names c w e = rw e refl

accepts_number :
    {D : Type 0} (v : ℤ) (ss : List Setting) (o : Option Camera) (w w' : NodeWorld D)
    → w.node.camera ≡ o
    → on_set_parameters ("buffer_count" ∷ map name_of ss) w ≡ (value true, w')
    → (on_set_parameters (map name_of ss) w ≡ (value true, w') → w'.node ≡ w.node)
    → (w'.node ≡ w.node) × Quiet o
unfolding pure
accepts_number v ss none w w' e h rest =
    let a = number_without_camera (map name_of ss) w e in absurd (ground arith)
accepts_number v ss (some c) w w' e h rest =
    let a = number_with_camera (map name_of ss) c w e in
    elim (Bool-cases (is_streaming c)) [
      | inl t ↦ absurd (ground arith)
      | inr f ↦ (rest (ground arith), f)
    ]

-- What an accepted change leaves as it is.
pub accepted :
    {D : Type 0} (ss : List Setting) (w w' : NodeWorld D)
    → on_set_parameters (map name_of ss) w ≡ (value true, w')
    → (w'.node ≡ w.node) × Harmless ss w.node.camera
unfolding on_set_parameters pure
accepted [] w w' h = (ground arith, inl (λ values. refl))
accepted (buffer_count v ∷ ss) w w' h =
    let a = accepts_number v ss w.node.camera w w' refl h (λ r. (accepted ss w w' r).0) in
    (a.0, inr a.1)
accepted (camera_id v ∷ ss) w w' h =
    accepts_after (camera_id v) ss w w' (λ values. refl) (accepted ss w w' h)
accepted (settings_file v ∷ ss) w w' h =
    accepts_after (settings_file v) ss w w' (λ values. refl) (accepted ss w w' h)
accepted (autostream v ∷ ss) w w' h =
    accepts_after (autostream v) ss w w' (λ values. refl) (accepted ss w w' h)
accepted (command_feature_timeout v ∷ ss) w w' h =
    accepts_after (command_feature_timeout v) ss w w' (λ values. refl) (accepted ss w w' h)
accepted (use_ros_time v ∷ ss) w w' h =
    accepts_after (use_ros_time v) ss w w' (λ values. refl) (accepted ss w w' h)

-- A stream that goes on has the number that is asked for afterwards.
SessionIn-resized :
    (P Q : ℕ → ℕ → Type 0) (c : Camera)
    → SessionIn P c
    → ((n cb : ℕ) → P n cb → c.stream_state ≡ active → Q n cb)
    → SessionIn Q c
SessionIn-resized P Q c (idle h) k = idle h
SessionIn-resized P Q c (streaming n cb p h) k = streaming n cb (k n cb p h.state) h
SessionIn-resized P Q c (broken_start h) k = broken_start h
SessionIn-resized P Q c (broken_stop h) k = broken_stop h

pub SizedOf-store_all :
    (ss : List Setting) (values : Values) (o : Option Camera)
    → Harmless ss o
    → SizedOf values o
    → SizedOf (store_all ss values) o
unfolding is_streaming
SizedOf-store_all ss values none h s = tt
SizedOf-store_all ss values (some c) (inl k) s =
    SessionIn-resized _ _ c s (λ n cb p a. p ∙ ap to_u64 (sym (k values)))
SizedOf-store_all ss values (some c) (inr q) s =
    SessionIn-resized _ _ c s (λ n cb p a. absurd (ground arith))

-- What ROS documents of a descriptor with an integer range.
pub record RangeLaw (checks : ParameterDescriptor → Setting → Bool) : Type 0 where
  pub within :
      (d : ParameterDescriptor) (r : IntegerRange) (v : ℤ)
      → d.integer_range ≡ some r
      → checks d (buffer_count v) ≡ true
      → (n : ℕ) × (v ≡ pos n) × (r.from_value ≤ n) × (n ≤ r.to_value)

abbrev pub Ranged : Values → Type 0
Ranged values = (n : ℕ) × (values.buffer_count_value ≡ pos n) × (3 ≤ n) × (n ≤ 1000)

module _ (checks : ParameterDescriptor → Setting → Bool) (law : RangeLaw checks) where
  pub store_all-Ranged :
      (ss : List Setting) (values : Values)
      → all_checked checks ss ≡ true
      → Ranged values
      → Ranged (store_all ss values)
  store_all-Ranged [] values h r = r
  store_all-Ranged (buffer_count v ∷ ss) values h r =
      let a = law.within (descriptor (buffer_count v)) buffer_count_range v refl (ground arith) in
      store_all-Ranged ss (store (buffer_count v) values) (ground arith) a
  store_all-Ranged (camera_id v ∷ ss) values h r = store_all-Ranged ss values (ground arith) r
  store_all-Ranged (settings_file v ∷ ss) values h r = store_all-Ranged ss values (ground arith) r
  store_all-Ranged (autostream v ∷ ss) values h r = store_all-Ranged ss _ (ground arith) r
  store_all-Ranged (command_feature_timeout v ∷ ss) values h r =
      store_all-Ranged ss _ (ground arith) r
  store_all-Ranged (use_ros_time v ∷ ss) values h r = store_all-Ranged ss _ (ground arith) r
