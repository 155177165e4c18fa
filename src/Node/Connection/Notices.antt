-- ===== src/Node/Connection/Notices.antt =====
-- The discovery callback and an invariant of the node.
use vimbax_ros2_driver.Common.{
  suc, ◌≡◌, refl, String, Bool, true, false, Option, none, Exit, value, error, aborted, caught, Act,
  Result, ok, err, pure, gets, attempt, ◌>>=◌, ◌&&◌, not, str_eq, codes, arith, if◌then◌else◌,
}
use vimbax_ros2_driver.Vmbc.{Api, Handle}
use vimbax_ros2_driver.Camera.{Camera}
use vimbax_ros2_driver.Node.{Node, NodeWorld}
use vimbax_ros2_driver.Node.Stream.{set_node, streaming_of}
use vimbax_ros2_driver.Node.Keeps.{pure-Keeps, gets-Keeps, attempt-Keeps, on_library-Keeps}
use vimbax_ros2_driver.Node.Connection.{
  set_camera, disconnect, react, react_to, on_camera_discovery_callback, is_some, contains,
}
use vimbax_ros2_driver.Node.Connection.Changes.{Turns, bind-Turns, Keeps-Turns, Connects}

module _ {I J : Node → Type 0} {D A : Type 0} where
  choose-Turns :
      (b : Bool) (m n : Act (NodeWorld D) A)
      → (b ≡ true → Turns I J m)
      → Turns I J n
      → Turns I J (if b then m else n)
  choose-Turns true m n h k = h refl
  choose-Turns false m n h k = k

module _ (J : Node → Type 0) {D A : Type 0} where
  caught-node : (r : Exit A × NodeWorld D) → J r.1.node → J (caught r).1.node
  caught-node (value a, w) h = h
  caught-node (error e, w) h = h
  caught-node (aborted x, w) h = h

module _ {I J : Node → Type 0} {D A : Type 0} where
  attempt-Turns : (m : Act (NodeWorld D) A) → Turns I J m → Turns I J (attempt m)
  unfolding attempt
  attempt-Turns m h = record { at = λ w s. caught-node J (m w) (h.at w s) }

module _ {I J : Node → Type 0} {D A B : Type 0} where
  -- A value that is read from the node.
  gets-Turns :
      (g : Node → A) (f : A → Act (NodeWorld D) B)
      → ((a : A) → Turns (λ n. I n × (g n ≡ a)) J (f a))
      → Turns I J (gets (λ w. g w.node) >>= f)
  unfolding ◌>>=◌
  gets-Turns g f k = record { at = λ w h. (k (g w.node)).at w (h, refl) }

camera-none : (o : Option Camera) → is_some o ≡ false → o ≡ none
camera-none o h = ground (arith, h)

and-not : (a b : Bool) → (a && not b) ≡ true → b ≡ false
and-not a b h = ground (arith, h)

module _ (api : Api) {H I J : Node → Type 0} (c : Connects H I J) where
  -- The node as the callback reads it: whether it has a camera.
  abbrev Seen : Bool → Node → Type 0
  Seen b n = (I n × H n) × (is_some n.camera ≡ b)

  disconnect-Turns : (b : Bool) → Turns (Seen b) I (disconnect api)
  unfolding disconnect set_node set_camera ◌>>=◌
  disconnect-Turns b = record { at = λ w h. c.lost w.node (streaming_of w.node.camera) h.0.0 }

  found-Turns :
      Turns {D = api.Dev}
        (Seen false)
        I
        (set_node (λ n. record n { reconnects = suc n.reconnects }))
  unfolding set_node
  found-Turns = record { at = λ w h. c.found w.node (camera-none w.node.camera h.1) h.0.1 h.0.0 }

  nothing-Turns : (b : Bool) → Turns {D = api.Dev} (Seen b) I (pure tt)
  nothing-Turns b = Keeps-Turns _ (pure-Keeps tt) (λ n h. h.0.0)

  react-Turns : (b : Bool) (last id reason : String) → Turns (Seen b) I (react api b last id reason)
  unfolding react
  react-Turns b last id reason =
      choose-Turns (str_eq reason "Missing") _ _
        (λ e.
          choose-Turns (contains (codes last) (codes id) && b) _ _ (λ e'. disconnect-Turns b)
            (nothing-Turns b))
        (choose-Turns (str_eq reason "Detected") _ _
          (λ e.
            choose-Turns (contains (codes last) (codes id) && not b) _ _
              (λ e'. rw (and-not _ b e') found-Turns) (nothing-Turns b))
          (nothing-Turns b))

  react_to-Turns :
      (b : Bool) (last : String) (handle : Handle) (id : Result String)
      → Turns (Seen b) I (react_to api b last handle id)
  react_to-Turns b last handle (ok id) =
      bind-Turns _ _ (Keeps-Turns _ (on_library-Keeps _) (λ n h. h)) (λ n h. h.0.0)
        λ reason. react-Turns b last id reason
  react_to-Turns b last handle (err e) = nothing-Turns b

  pub discovery-Turns :
      (handle : Handle) → Turns (λ n. I n × H n) I (on_camera_discovery_callback api handle)
  unfolding on_camera_discovery_callback
  discovery-Turns handle =
      bind-Turns _ _ (Keeps-Turns _ (attempt-Keeps _ (on_library-Keeps _)) (λ n h. h)) (λ n h. h.0)
        λ id.
          gets-Turns (λ n. is_some n.camera) _
            λ b.
              bind-Turns _ _ (Keeps-Turns _ (gets-Keeps _) (λ n h. h)) (λ n h. h.0.0)
                λ last.
                  bind-Turns _ _
                    (attempt-Turns _ (
                      choose-Turns (str_eq last "") _ _ (λ e. nothing-Turns b)
                        (react_to-Turns b last handle id)))
                    (λ n h. h) λ res. Keeps-Turns _ (pure-Keeps tt) (λ n h. h)
