-- ===== src/Node/Connection/Changes.antt =====
-- What the discovery callback and the threads that it starts do to an invariant of the node.
use vimbax_ros2_driver.Common.{
  ℕ, suc, ◌≡◌, refl, String, Bool, true, false, Option, none, some, Exit, value, error, aborted,
  Act, Result, ok, err, continue, ◌>>=◌,
}
use vimbax_ros2_driver.Common.Ensures.{Ensures, OnValue}
use vimbax_ros2_driver.Vmbc.{Api, CameraInfo}
use vimbax_ros2_driver.Camera.{Camera}
use vimbax_ros2_driver.Camera.Open.Opened.{FreshIfAny, open_by_name-FreshIfAny}
use vimbax_ros2_driver.Camera.Settings.{FileSystem}
use vimbax_ros2_driver.Camera.Information.{Details}
use vimbax_ros2_driver.Node.{Node, NodeWorld}
use vimbax_ros2_driver.Node.Stream.{set_node}
use vimbax_ros2_driver.Node.Keeps.{
  Keeps, bind-Keeps, pure-Keeps, gets-Keeps, attempt-Keeps, ask-Keeps, set_node-Keeps,
}
use vimbax_ros2_driver.Node.Connection.{
  OpenParameters, on_library, set_camera, remember, load_if, available_if, restart_if, set_up,
  initialize_camera, reconnect,
}

-- From a node with `I`, the body leaves one with `J`, however it ends.
pub record Turns {D A : Type 0} (I J : Node → Type 0) (m : Act (NodeWorld D) A) : Type 0 where
  pub at : (w : NodeWorld D) → I w.node → J (m w).1.node

module _ (I J : Node → Type 0) {D A B : Type 0} where
  continue-Turns :
      (r : Exit A × NodeWorld D) (f : A → Act (NodeWorld D) B)
      → I r.1.node
      → ((n : Node) → I n → J n)
      → ((a : A) → Turns I J (f a))
      → J (continue r f).1.node
  continue-Turns (value a, w) f h e k = (k a).at w h
  continue-Turns (error c, w) f h e k = e w.node h
  continue-Turns (aborted x, w) f h e k = e w.node h

  -- A call on the library, whose value has a property.
  library-continue :
      {P : A → Type 0} (r : Exit A × D) (n : Node) (f : A → Act (NodeWorld D) B)
      → OnValue P r
      → I n
      → ((n : Node) → I n → J n)
      → ((a : A) → P a → Turns I J (f a))
      → J (continue (r.0, record { node = n; dev = r.1 }) f).1.node
  library-continue (value a, d) n f p h e k = (k a p).at _ h
  library-continue (error c, d) n f p h e k = e n h
  library-continue (aborted x, d) n f p h e k = e n h

module _ {I J K : Node → Type 0} {D A B : Type 0} where
  pub bind-Turns :
      (m : Act (NodeWorld D) A) (f : A → Act (NodeWorld D) B)
      → Turns I J m
      → ((n : Node) → J n → K n)
      → ((a : A) → Turns J K (f a))
      → Turns I K (m >>= f)
  unfolding ◌>>=◌
  bind-Turns m f h e k = record { at = λ w s. continue-Turns J K (m w) f (h.at w s) e k }

module _ {I J : Node → Type 0} {D A : Type 0} where
  pub Keeps-Turns : (m : Act (NodeWorld D) A) → Keeps I m → ((n : Node) → I n → J n) → Turns I J m
  Keeps-Turns m h e = record { at = λ w s. e _ (h.at w s) }

module _ {I J : Node → Type 0} {D A B : Type 0} where
  library-Turns :
      {P : A → Type 0} (m : Act D A) (f : A → Act (NodeWorld D) B)
      → Ensures P m
      → ((n : Node) → I n → J n)
      → ((a : A) → P a → Turns I J (f a))
      → Turns I J (on_library m >>= f)
  unfolding ◌>>=◌ on_library
  library-Turns {P} m f p e k = record {
    at = λ w h. library-continue I J {P = P} (m w.dev) w.node f (p.at w.dev) h e k;
  }

-- What an invariant `I` has to bear where a camera goes or comes. `H` is what is known when a notice
-- arrives that one came, and `J` what a thread finds that opens it.
pub record Connects (H I J : Node → Type 0) : Type 0 where
  pub lost :
      (n : Node) (b : Bool)
      → I n
      → I (record n { camera = none; is_available = false; restart_pending = b })
  pub found :
      (n : Node) → n.camera ≡ none → H n → I n → I (record n { reconnects = suc n.reconnects })
  pub thread : (n : Node) (k : ℕ) → n.reconnects ≡ suc k → I n → J (record n { reconnects = k })
  pub set : (n : Node) (o : Option Camera) → FreshIfAny o → J n → J (record n { camera = o })
  pub remembered : (n : Node) (id : String) → J n → J (record n { last_camera_id = id })
  pub opened :
      (n : Node) (c : Camera) → n.camera ≡ some c → J n → I (record n { is_available = true })
  pub restarted :
      (n : Node) (b : Bool)
      → I n
      → I (record n { stream_restart_required = b; restart_pending = false })
  pub back : (n : Node) → J n → I n

module _ (api : Api) (fs : FileSystem api.Dev) (parameters : OpenParameters) {H I J : Node → Type 0}
    (c : Connects H I J) where
  abbrev Opened : Option Camera → Node → Type 0
  Opened o n = J n × (n.camera ≡ o)

  Opened-back : (o : Option Camera) (n : Node) → Opened o n → I n
  Opened-back o n h = c.back n h.0

  set_camera-Opened : (o : Option Camera) → FreshIfAny o → Turns J (Opened o) (set_camera api o)
  unfolding set_camera
  set_camera-Opened o f = record { at = λ w h. (c.set w.node o f h, refl) }

  remember-Opened :
      (o : Option Camera) (res : Result CameraInfo) (n : Node)
      → Opened o n
      → Opened o (remember api fs parameters res n)
  remember-Opened o (ok info) n h = (c.remembered n info.camera_id_string h.0, h.1)
  remember-Opened o (err e) n h = h

  load_if-Opened : (o : Option Camera) (b : Bool) → Keeps (Opened o) (load_if api fs parameters b)
  unfolding load_if
  load_if-Opened o true = bind-Keeps _ _ (attempt-Keeps _ (ask-Keeps _)) λ res. pure-Keeps tt
  load_if-Opened o false = pure-Keeps tt

  available_if-Turns :
      (k : Camera) (res : Result (Details api.Float))
      → Turns (Opened (some k)) I (available_if api fs parameters res)
  unfolding ◌>>=◌ set_node
  available_if-Turns k (ok info) = record { at = λ w h. c.opened w.node k h.1 h.0 }
  available_if-Turns k (err e) = record { at = λ w h. c.back w.node h.0 }

  set_up-Turns : (o : Option Camera) → Turns (Opened o) I (set_up api fs parameters o)
  unfolding set_up
  set_up-Turns none = Keeps-Turns _ (pure-Keeps false) (Opened-back none)
  set_up-Turns (some k) =
      let back = Opened-back (some k) in
      bind-Turns _ _ (Keeps-Turns _ (attempt-Keeps _ (ask-Keeps _)) (λ n h. h)) back λ result.
        bind-Turns _ _
          (Keeps-Turns _ (set_node-Keeps _ (remember-Opened (some k) result)) (λ n h. h)) back
          λ u. bind-Turns _ _ (Keeps-Turns _ (load_if-Opened (some k) _) (λ n h. h)) back λ v.
            bind-Turns _ _ (Keeps-Turns _ (attempt-Keeps _ (ask-Keeps _)) (λ n h. h)) back
              λ info. available_if-Turns k info

  pub initialize_camera-Turns : Turns J I (initialize_camera api fs parameters)
  unfolding initialize_camera
  initialize_camera-Turns = bind-Turns _ _ (Keeps-Turns _ (gets-Keeps _) (λ n h. h)) c.back λ name.
      library-Turns _ _ (open_by_name-FreshIfAny api name) c.back
        λ o f. bind-Turns _ _ (set_camera-Opened o f) (Opened-back o) λ u. set_up-Turns o

  restart_if-Keeps : (b : Bool) → Keeps I (restart_if api fs parameters b)
  restart_if-Keeps true = set_node-Keeps _ (λ n h. c.restarted n n.restart_pending h)
  restart_if-Keeps false = pure-Keeps tt

  pub reconnect-Turns : Turns J I (reconnect api fs parameters)
  unfolding reconnect
  reconnect-Turns =
      bind-Turns _ _ initialize_camera-Turns (λ n h. h)
        λ done. Keeps-Turns _ (restart_if-Keeps done) (λ n h. h)
