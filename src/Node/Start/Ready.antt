-- ===== src/Node/Start/Ready.antt =====
-- A node that `initialize` has made.
use vimbax_ros2_driver.Common.{
  ◌≡◌, ◌≢◌, refl, Bool, true, false, Option, none, some, Exit, value, error, aborted, Act, Result,
  ok, err, pure, ◌>>=◌, arith, ◌&&◌,
}
use vimbax_ros2_driver.Common.Yields.{Yields, OnReturn, Yields-bind, Yields-pure, Yields-any}
use vimbax_ros2_driver.Vmbc.{Api}
use vimbax_ros2_driver.Camera.{Camera}
use vimbax_ros2_driver.Camera.Settings.{FileSystem}
use vimbax_ros2_driver.Camera.Information.{Details}
use vimbax_ros2_driver.Node.{NodeWorld}
use vimbax_ros2_driver.Node.Stream.{set_node}
use vimbax_ros2_driver.Node.Keeps.{Keeps, pure-Keeps}
use vimbax_ros2_driver.Node.Connection.{
  OpenParameters, on_library, set_up, available_if, initialize_camera, initialize_camera_observer,
}
use vimbax_ros2_driver.Node.Connection.Changes.{
  Turns, bind-Turns, Keeps-Turns, initialize_camera-Turns,
}
use vimbax_ros2_driver.Node.Connection.Holds.{Attached, Waiting, Attached-Connects, Waiting-back}
use vimbax_ros2_driver.Node.Start.{Objects, new_node, then_if, open_after, initialize, rest_of}

-- A body that returns true leaves an available node.
abbrev Avails : {D : Type 0} → Act (NodeWorld D) Bool → Type 0
Avails m = Yields (λ w. Unit {0}) (λ b w. b ≡ true → w.node.is_available ≡ true) m

module _ (api : Api) (fs : FileSystem api.Dev) (parameters : OpenParameters)
    (objects : Objects) where
  available_if-Avails : (r : Result (Details api.Float)) → Avails (available_if api fs parameters r)
  unfolding ◌>>=◌ set_node pure
  available_if-Avails (ok info) = record { at = λ w u e. refl }
  available_if-Avails (err e) = record { at = λ w u e. absurd (ground arith) }

  set_up-Avails : (o : Option Camera) → Avails (set_up api fs parameters o)
  unfolding set_up
  set_up-Avails none = Yields-pure false (λ w u e. absurd (ground arith))
  set_up-Avails (some c) = Yields-bind _ _ (Yields-any _) λ result.
      Yields-bind _ _ (Yields-any _) λ u.
        Yields-bind _ _ (Yields-any _)
          λ v. Yields-bind _ _ (Yields-any _) λ info. available_if-Avails info

  initialize_camera-Avails : Avails (initialize_camera api fs parameters)
  unfolding initialize_camera
  initialize_camera-Avails = Yields-bind _ _ (Yields-any _) λ name.
      Yields-bind _ _ (Yields-any _)
        λ opened. Yields-bind _ _ (Yields-any _) λ u. set_up-Avails opened

  -- The objects behind the camera change nothing.
  rest-Yields :
      (opened b : Bool)
      → Yields
          (λ w. opened ≡ true → w.node.is_available ≡ true)
          (λ b w. b ≡ true → w.node.is_available ≡ true)
          (then_if {S = NodeWorld api.Dev} opened (pure b))
  rest-Yields true b = Yields-pure b (λ w h e. h refl)
  rest-Yields false b = Yields-pure false (λ w h e. absurd (ground arith))

  open_after-Avails : (observed : Bool) → Avails (open_after api fs parameters objects observed)
  unfolding open_after
  open_after-Avails true =
      Yields-bind _ _ initialize_camera-Avails λ opened. rest-Yields opened (rest_of objects)
  open_after-Avails false = Yields-pure false (λ w u e. absurd (ground arith))

  start-Avails :
      (there : Bool)
      → Avails (
          then_if there (
            on_library (initialize_camera_observer api) >>= λ observed.
            open_after api fs parameters objects observed))
  start-Avails true = Yields-bind _ _ (Yields-any _) open_after-Avails
  start-Avails false = Yields-pure false (λ w u e. absurd (ground arith))

  pure-Turns : (b : Bool) → Turns Attached Attached (pure {S = NodeWorld api.Dev} b)
  pure-Turns b = Keeps-Turns _ (pure-Keeps b) (λ n h. h)

  rest-Turns :
      (opened b : Bool) → Turns Attached Attached (then_if {S = NodeWorld api.Dev} opened (pure b))
  rest-Turns true b = pure-Turns b
  rest-Turns false b = pure-Turns false

  open_after-Turns :
      (observed : Bool) → Turns Waiting Attached (open_after api fs parameters objects observed)
  unfolding open_after
  open_after-Turns true =
      bind-Turns _ _ (initialize_camera-Turns api fs parameters Attached-Connects) (λ n h. h)
        λ opened. rest-Turns opened (rest_of objects)
  open_after-Turns false = Keeps-Turns _ (pure-Keeps false) Waiting-back

  observer-Keeps : Keeps Waiting (on_library (initialize_camera_observer api))
  unfolding on_library
  observer-Keeps = record { at = λ w h. h }

  start-Turns :
      (there : Bool)
      → Turns Waiting Attached (
          then_if there (
            on_library (initialize_camera_observer api) >>= λ observed.
            open_after api fs parameters objects observed))
  start-Turns true =
      bind-Turns _ _ (Keeps-Turns _ observer-Keeps (λ n h. h)) Waiting-back open_after-Turns
  start-Turns false = Keeps-Turns _ (pure-Keeps false) Waiting-back

  abbrev Ready : Exit Bool × NodeWorld api.Dev → Type 0
  Ready (r, w) =
      Attached w.node × (r ≡ value true → (w.node.is_available ≡ true) × (w.node.camera ≢ none))

  Ready-of :
      (r : Exit Bool) (w : NodeWorld api.Dev)
      → Attached w.node
      → OnReturn (λ b w. b ≡ true → w.node.is_available ≡ true) (r, w)
      → Ready (r, w)
  Ready-of (value b) w h o = (h, λ e. let a = o (ground arith) in (a, h.has_camera a))
  Ready-of (error c) w h o = (h, λ e. absurd (ground arith))
  Ready-of (aborted x) w h o = (h, λ e. absurd (ground arith))

  -- However `initialize` ends on a new node, whatever the library answers and whichever object is
  -- missing: while the node is available it has a camera, and no thread waits to open one. If
  -- `initialize` returns true, the node is available, with a camera.
  pub initialize-Ready :
      (d : api.Dev)
      → let (r, w) = initialize api fs parameters objects (record { node = new_node; dev = d }) in
        Attached w.node × (r ≡ value true → (w.node.is_available ≡ true) × (w.node.camera ≢ none))
  unfolding initialize
  initialize-Ready d =
      let w : NodeWorld api.Dev = record { node = new_node; dev = d } in
      let there = objects.node && objects.api in
      Ready-of _ _ ((start-Turns there).at w (record { away = refl; none_left = refl }))
        ((start-Avails there).at w tt)
