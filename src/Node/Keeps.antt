-- ===== src/Node/Keeps.antt =====
-- Handlers that keep an invariant of the node.
use vimbax_ros2_driver.Common.{
  ℕ, ◌≡◌, ℤ, Bool, true, false, fail, if◌then◌else◌, Option, none, some, Exit, value, error,
  aborted, Act, Result, ok, err, pure, gets, give, attempt, caught, continue, ◌>>=◌, Bool-cases,
  Option-cases, inl, inr,
}
use vimbax_ros2_driver.Vmbc.{Api}
use vimbax_ros2_driver.Camera.{Camera, World, Module}
use vimbax_ros2_driver.Node.Connection.{on_library}
use vimbax_ros2_driver.Node.Status.{camera_service}
use vimbax_ros2_driver.Node.Stream.{set_node}
use vimbax_ros2_driver.Node.{
  Node, NodeWorld, answer, ask, tell, in_module, feature_service, map_module,
}
use vimbax_ros2_driver.Node.Services.{
  Request, handle, request_int_get, request_int_set, request_int_info_get, request_float_get,
  request_float_set, request_float_info_get, request_string_get, request_string_set,
  request_string_info_get, request_bool_get, request_bool_set, request_command_is_done,
  request_command_run, request_enum_get, request_enum_set, request_enum_info_get,
  request_enum_as_int_get, request_enum_as_string_get, request_raw_get, request_raw_set,
  request_raw_info_get, request_access_mode_get, request_info_query, request_list_get,
}

pub record Keeps {D A : Type 0} (I : Node → Type 0) (m : Act (NodeWorld D) A) : Type 0 where
  pub at : (w : NodeWorld D) → I w.node → I (m w).1.node

module _ (I : Node → Type 0) {D A B : Type 0} where
  continue-Keeps :
      (r : Exit A × NodeWorld D) (f : A → Act (NodeWorld D) B)
      → I r.1.node
      → ((a : A) → Keeps I (f a))
      → I (continue r f).1.node
  continue-Keeps (value a, w) f h k = (k a).at w h
  continue-Keeps (error e, w) f h k = h
  continue-Keeps (aborted x, w) f h k = h

module _ {I : Node → Type 0} {D A B : Type 0} where
  pub bind-Keeps :
      (m : Act (NodeWorld D) A) (f : A → Act (NodeWorld D) B)
      → Keeps I m
      → ((a : A) → Keeps I (f a))
      → Keeps I (m >>= f)
  unfolding ◌>>=◌
  bind-Keeps m f h k = record { at = λ w s. continue-Keeps I (m w) f (h.at w s) k }

module _ (I : Node → Type 0) {D A : Type 0} where
  caught-Keeps : (r : Exit A × NodeWorld D) → I r.1.node → I (caught r).1.node
  caught-Keeps (value a, w) h = h
  caught-Keeps (error e, w) h = h
  caught-Keeps (aborted x, w) h = h

  pub answer-Keeps : (r : Exit A × NodeWorld D) → I r.1.node → I (answer r).1.node
  answer-Keeps (value a, w) h = h
  answer-Keeps (error e, w) h = h
  answer-Keeps (aborted x, w) h = h

module _ {I : Node → Type 0} {D A : Type 0} where
  pub pure-Keeps : (a : A) → Keeps {D = D} I (pure a)
  unfolding pure
  pure-Keeps a = record { at = λ w h. h }

  pub gets-Keeps : (f : NodeWorld D → A) → Keeps I (gets f)
  unfolding gets
  gets-Keeps f = record { at = λ w h. h }

  pub attempt-Keeps : (m : Act (NodeWorld D) A) → Keeps I m → Keeps I (attempt m)
  unfolding attempt
  attempt-Keeps m h = record { at = λ w s. caught-Keeps I (m w) (h.at w s) }

  pub give-Keeps : (r : Result A) → Keeps {D = D} I (give r)
  unfolding give
  give-Keeps (ok a) = record { at = λ w h. h }
  give-Keeps (err e) = record { at = λ w h. h }

  pub ask-Keeps : (f : Camera → Act D A) → Keeps I (ask f)
  unfolding ask
  ask-Keeps f = record {
    at = λ w h. elim (Option-cases w.node.camera) [
      | inl e ↦ simp (ask, e) h
      | inr (c, e) ↦ simp (ask, e) h
    ];
  }

  pub in_module-Keeps :
      (o : Option Module) (f : Camera → Module → Act D A) → Keeps I (in_module o f)
  in_module-Keeps none f = record { at = λ w h. h }
  in_module-Keeps (some m) f = record {
    at = λ w h. answer-Keeps I (ask (λ c. f c m) w) ((ask-Keeps (λ c. f c m)).at w h);
  }

  pub feature_service-Keeps :
      (id : ℕ) (f : Camera → Module → Act D A) → Keeps I (feature_service id f)
  unfolding feature_service
  feature_service-Keeps id f = record {
    at = λ w h. elim (Bool-cases w.node.is_available) [
      | inl e ↦ simp e ((in_module-Keeps (map_module id) f).at w h)
      | inr e ↦ simp e h
    ];
  }

module _ {I : Node → Type 0} {D A : Type 0} where
  pub tell-Keeps :
      (m : Act (World D) A)
      → ((w : NodeWorld D) (c : Camera)
          → w.node.camera ≡ some c
          → I w.node
          → I (record w.node { camera = some (m (record { camera = c; dev = w.dev })).1.camera }))
      → Keeps I (tell m)
  unfolding tell
  tell-Keeps m k = record {
    at = λ w h. elim (Option-cases w.node.camera) [
      | inl e ↦ simp (tell, e) h
      | inr (c, e) ↦ simp (tell, e) (k w c e h)
    ];
  }

  pub if-Keeps :
      (test : NodeWorld D → Bool) (m n : Act (NodeWorld D) A)
      → Keeps I m
      → Keeps I n
      → Keeps I (λ w. if test w then m w else n w)
  if-Keeps test m n hm hn = record {
    at = λ w h. elim (Bool-cases (test w)) [
      | inl e ↦ simp e (hm.at w h)
      | inr e ↦ simp e (hn.at w h)
    ];
  }

  pub choose-Keeps :
      (b : Bool) (m n : Act (NodeWorld D) A) → Keeps I m → Keeps I n → Keeps I (if b then m else n)
  choose-Keeps true m n h k = h
  choose-Keeps false m n h k = k

  pub fail-Keeps : (e : ℤ) → Keeps {D = D} {A = A} I (fail e)
  unfolding fail
  fail-Keeps e = record { at = λ w h. h }

  pub on_library-Keeps : (m : Act D A) → Keeps I (on_library m)
  unfolding on_library
  on_library-Keeps m = record { at = λ w h. h }

  pub camera_service-Keeps : (f : Camera → Act D A) → Keeps I (camera_service f)
  unfolding camera_service
  camera_service-Keeps f = record {
    at = λ w h. elim (Bool-cases w.node.is_available) [
      | inl e ↦ simp e (answer-Keeps I (ask f w) ((ask-Keeps {I = I} f).at w h))
      | inr e ↦ simp e h
    ];
  }

module _ {I : Node → Type 0} {D : Type 0} where
  pub set_node-Keeps :
      (f : Node → Node) → ((n : Node) → I n → I (f n)) → Keeps {D = D} I (set_node f)
  unfolding set_node
  set_node-Keeps f k = record { at = λ w h. k w.node h }

module _ {I : Node → Type 0} (api : Api) where
  pub handle-Keeps : (r : Request api.Float) (id : ℕ) → Keeps I (handle api r id)
  unfolding handle
  handle-Keeps (request_int_get name) id = feature_service-Keeps id _
  handle-Keeps (request_int_set name v) id = feature_service-Keeps id _
  handle-Keeps (request_int_info_get name) id = feature_service-Keeps id _
  handle-Keeps (request_float_get name) id = feature_service-Keeps id _
  handle-Keeps (request_float_set name v) id = feature_service-Keeps id _
  handle-Keeps (request_float_info_get name) id = feature_service-Keeps id _
  handle-Keeps (request_string_get name) id = feature_service-Keeps id _
  handle-Keeps (request_string_set name v) id = feature_service-Keeps id _
  handle-Keeps (request_string_info_get name) id = feature_service-Keeps id _
  handle-Keeps (request_bool_get name) id = feature_service-Keeps id _
  handle-Keeps (request_bool_set name v) id = feature_service-Keeps id _
  handle-Keeps (request_command_is_done name) id = feature_service-Keeps id _
  handle-Keeps (request_command_run timeout name) id = feature_service-Keeps id _
  handle-Keeps (request_enum_get name) id = feature_service-Keeps id _
  handle-Keeps (request_enum_set name v) id = feature_service-Keeps id _
  handle-Keeps (request_enum_info_get name) id = feature_service-Keeps id _
  handle-Keeps (request_enum_as_int_get name option) id = feature_service-Keeps id _
  handle-Keeps (request_enum_as_string_get name v) id = feature_service-Keeps id _
  handle-Keeps (request_raw_get name) id = feature_service-Keeps id _
  handle-Keeps (request_raw_set name buffer) id = feature_service-Keeps id _
  handle-Keeps (request_raw_info_get name) id = feature_service-Keeps id _
  handle-Keeps (request_access_mode_get name) id = feature_service-Keeps id _
  handle-Keeps (request_info_query names) id = feature_service-Keeps id _
  handle-Keeps request_list_get id = feature_service-Keeps id _
