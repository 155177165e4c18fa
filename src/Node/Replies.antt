-- ===== src/Node/Replies.antt =====
-- The responses of the feature services: a body or an error, never both and never neither.
use vimbax_ros2_driver.Common.{
  ℕ, zero, suc, ◌+◌, ◌*◌, ◌/◌, ◌≤◌, ◌≡◌, refl, ◌≢◌, true, false, Option, none, some, List, [], ◌∷◌,
  String, Exit, value, error, aborted, Act, arith, Option-cases, Bool-cases, inl, inr, ◌>>=◌,
}
use vimbax_ros2_driver.Error.{is_success, to_error_msg, no_error}
use vimbax_ros2_driver.Vmbc.{Api, Handle}
use vimbax_ros2_driver.Vmbc.Honest.{
  FailsHonestly, Honest, bind-Honest, pure-Honest, call-Honest, attempt-Honest,
}
use vimbax_ros2_driver.Camera.{Camera, Module, get_module_handle}
use vimbax_ros2_driver.Camera.Features
use vimbax_ros2_driver.Camera.Enums
use vimbax_ros2_driver.Camera.Infos.{feature_info_query_list}
use vimbax_ros2_driver.Camera.Command.{poll, run_on, feature_command_run, timeout_or_default}
use vimbax_ros2_driver.Node.{
  NodeWorld, Response, map_module, ask, feature_service, in_module, answer,
}
use vimbax_ros2_driver.Camera.Command.Ends.{ClockLaws}
use vimbax_ros2_driver.Node.Services.{query_infos}

module _ (api : Api) where
  pub available_of-Honest :
      (h : Handle) (name : String) (entries : List String)
      → Honest (Enums.available_of api h name entries)
  unfolding Enums.available_of
  available_of-Honest h name [] = pure-Honest []
  available_of-Honest h name (entry ∷ entries) =
      bind-Honest _ _
        (attempt-Honest _ (call-Honest (api.vmb_feature_enum_is_available h name entry)))
        λ available. bind-Honest _ _ (available_of-Honest h name entries) λ rest. pure-Honest _

  info_query_list-Honest :
      (c : Camera) (names : List String) (m : Module)
      → Honest (feature_info_query_list api c names m)
  unfolding feature_info_query_list
  info_query_list-Honest c [] m = pure-Honest []
  info_query_list-Honest c (name ∷ names) m =
      bind-Honest _ _ (call-Honest (api.vmb_feature_info_query (get_module_handle c m) name))
        λ info. bind-Honest _ _ (info_query_list-Honest c names m) λ rest. pure-Honest _

  pub query_infos-Honest :
      (names : List String) (c : Camera) (m : Module) → Honest (query_infos api names c m)
  unfolding query_infos Features.features_list_get
  query_infos-Honest [] c m =
      bind-Honest _ _ (pure-Honest _) λ found. info_query_list-Honest c found m
  query_infos-Honest (name ∷ names) c m =
      bind-Honest _ _ (pure-Honest _) λ found. info_query_list-Honest c found m

module _ (api : Api) (laws : ClockLaws api) (h : Handle) (name : String) (start limit : ℕ) where
  poll-Honest :
      (fuel : ℕ) (d : api.Dev)
      → start + limit ≤ api.now d + 100 * suc fuel
      → FailsHonestly (poll api h name start limit (suc fuel) d)
  unfolding poll ◌>>=◌
  poll-Honest zero d e =
      ground
        (arith, laws.steady h name d, laws.sleeps 100 (api.vmb_feature_command_is_done h name d).2)
  poll-Honest (suc fuel) d e = ground (
    arith,
    laws.steady h name d,
    laws.sleeps 100 (api.vmb_feature_command_is_done h name d).2,
    poll-Honest fuel (api.sleep_for 100 (api.vmb_feature_command_is_done h name d).2),
  )

module _ (api : Api) (laws : ClockLaws api) where
  run_on-FailsHonestly :
      (name : String) (h : Handle) (limit : Option ℕ) (d : api.Dev)
      → FailsHonestly (run_on api name h limit d)
  unfolding run_on ◌>>=◌
  run_on-FailsHonestly name h limit d = ground (
    arith,
    poll-Honest api laws h name (api.now (api.vmb_feature_command_run h name d).2)
        (timeout_or_default limit) (timeout_or_default limit / 100)
        (api.vmb_feature_command_run h name d).2,
  )

  pub command_run-Honest :
      (c : Camera) (name : String) (limit : Option ℕ) (m : Module)
      → Honest (feature_command_run api c name limit m)
  unfolding feature_command_run
  command_run-Honest c name limit m = record {
    at = λ d. run_on-FailsHonestly name (get_module_handle c m) limit d;
  }

-- The fields of a response are filled in where its error is the empty one, and only there.
abbrev pub IsSound : {A : Type 0} → Response A → Type 0
IsSound r = elim r.body [ none ↦ is_success r.error.code ≡ false | some a ↦ r.error ≡ no_error ]

-- The handler returned, with such a response.
abbrev pub Answers : {A S : Type 0} → Exit (Response A) × S → Type 0
Answers (value r, s) = IsSound r
Answers (error e, s) = ⊥
Answers (aborted x, s) = ⊥

-- While the camera is available, there is one.
abbrev pub HasCamera : {D : Type 0} → NodeWorld D → Type 0
HasCamera w = w.node.is_available ≡ true → w.node.camera ≢ none

answer-Answers : {A S : Type 0} (r : Exit A × S) → FailsHonestly r → Answers (answer r)
unfolding to_error_msg
answer-Answers (value a, s) h = refl
answer-Answers (error e, s) h = h
answer-Answers (aborted x, s) h = h

module _ {D A : Type 0} where
  kept_in :
      (r : Exit A × D) (w : NodeWorld D)
      → FailsHonestly r
      → FailsHonestly (r.0, record w { dev = r.1 })
  kept_in (value a, d) w h = tt
  kept_in (error e, d) w h = h
  kept_in (aborted x, d) w h = h

  ask-FailsHonestly :
      (f : Camera → Act D A) (w : NodeWorld D)
      → w.node.camera ≢ none
      → ((c : Camera) → Honest (f c))
      → FailsHonestly (ask f w)
  unfolding ask
  ask-FailsHonestly f w h k = elim (Option-cases w.node.camera) [
    | inl e ↦ absurd (h e)
    | inr (c, e) ↦ simp (ask, e) (kept_in (f c w.dev) w ((k c).at w.dev))
  ]

  in_module-Answers :
      (o : Option Module) (f : Camera → Module → Act D A) (w : NodeWorld D)
      → w.node.camera ≢ none
      → ((c : Camera) (m : Module) → Honest (f c m))
      → Answers (in_module o f w)
  unfolding to_error_msg
  in_module-Answers none f w h k = refl
  in_module-Answers (some m) f w h k =
      answer-Answers _ (ask-FailsHonestly (λ c. f c m) w h (λ c. k c m))

  pub feature_service-Answers :
      (id : ℕ) (f : Camera → Module → Act D A) (w : NodeWorld D)
      → HasCamera w
      → ((c : Camera) (m : Module) → Honest (f c m))
      → Answers (feature_service id f w)
  unfolding feature_service to_error_msg
  feature_service-Answers id f w h k = elim (Bool-cases w.node.is_available) [
    | inl e ↦ simp e (in_module-Answers (map_module id) f w (h e) k)
    | inr e ↦ simp e refl
  ]
