-- ===== src/Loader/Instance/Outcomes.antt =====
-- What an instance that get_instance gives stands on.
use vimbax_ros2_driver.Common.{
  ℕ, ◌≡◌, refl, ◌++◌, String, Bool, true, false, Option, none, some, List, [], ◌∷◌, All, Exit,
  value, error, aborted, Act, pure, ◌>>=◌, arith, if◌then◌else◌,
}
use vimbax_ros2_driver.Common.Yields.{
  Yields, OnReturn, Yields-bind, Yields-pure, Yields-gets, Yields-any, Yields-weaken,
}
use vimbax_ros2_driver.Error.{is_success}
use vimbax_ros2_driver.Loader.Instance.{
  System, Process, FilePath, symbols_before, symbols_from_shutdown, load_vmbc_library,
  load_functions, give_up_if, start_up, leave, load_instance, create_instance, after, get_instance,
}

module _ (system : System) (tl_search_path : FilePath) where
  -- The state after VmbStartup has succeeded, in a library that has all the symbols.
  abbrev pub Started : system.Os → Type 0
  Started s' =
      (library : ℕ) × (s : system.Os) × All (λ name. system.dlsym library name s ≡ true)
        (symbols_before ++ symbols_from_shutdown)
      × (is_success (system.vmb_startup tl_search_path s).0 ≡ true)
      × ((system.vmb_startup tl_search_path s).1 ≡ s')

  abbrev Resolved : ℕ → List String → system.Os → Type 0
  Resolved library names s = All (λ name. system.dlsym library name s ≡ true) names

  -- The symbols are all there, if the first component says so; the state is the same.
  abbrev Found : (system.Os → Type 0) → ℕ → List String → Bool × Bool → system.Os → Type 0
  Found P library names r s = P s × (r.0 ≡ true → Resolved library names s)

  choose-Found :
      (P : system.Os → Type 0) (library : ℕ) (name : String) (names : List String)
      (there loaded : Bool) (rest : Act system.Os (Bool × Bool))
      → Yields
          (λ s. P s × (system.dlsym library name s ≡ true))
          (Found (λ s. P s × (system.dlsym library name s ≡ true)) library names)
          rest
      → Yields
          (λ s. P s × (system.dlsym library name s ≡ there))
          (Found P library (name ∷ names))
          (if there then rest else pure (false, loaded))
  choose-Found P library name names true loaded rest h =
      Yields-weaken rest h (λ r s k. (k.0.0, λ e. (k.0.1, k.1 e)))
  choose-Found P library name names false loaded rest h =
      Yields-pure (false, loaded) (λ s p. (p.0, λ e. absurd (ground (arith, e))))

  load_functions-Found :
      (library : ℕ) (names : List String) (loaded : Bool) (P : system.Os → Type 0)
      → Yields P (Found P library names) (load_functions system library names loaded)
  unfolding load_functions
  load_functions-Found library [] loaded P = Yields-pure (true, loaded) (λ s p. (p, λ e. tt))
  load_functions-Found library (name ∷ names) loaded P =
      Yields-bind _ _ (Yields-gets (system.dlsym library name)) λ there.
        choose-Found P library name names there loaded _ (load_functions-Found library names _ _)

  -- An instance is made, and it is started.
  abbrev StartedIf : Bool → system.Os → Type 0
  StartedIf made s = made ≡ true → Started s

  give_up_if-StartedIf :
      (b : Bool) (library : ℕ) (shutdown_loaded : Bool) (s : system.Os)
      → All (λ name. system.dlsym library name s ≡ true) (symbols_before ++ symbols_from_shutdown)
      → is_success (system.vmb_startup tl_search_path s).0 ≡ b
      → Yields
          (λ s'. (system.vmb_startup tl_search_path s).1 ≡ s')
          StartedIf
          (give_up_if system b library shutdown_loaded)
  give_up_if-StartedIf true library shutdown_loaded s found e =
      Yields-pure true (λ s' t u. (library, s, found, e, t))
  give_up_if-StartedIf false library shutdown_loaded s found e = Yields-bind _ _ (Yields-any _) λ u.
      Yields-bind _ _ (Yields-any _) λ v. Yields-pure false (λ s' t w. absurd (ground (arith, w)))

  start_up-StartedIf :
      (library : ℕ) (loaded : Bool)
      → Yields
          (λ s.
            All
              (λ name. system.dlsym library name s ≡ true)
              (symbols_before ++ symbols_from_shutdown))
          StartedIf
          (start_up system tl_search_path library loaded)
  unfolding start_up ◌>>=◌
  start_up-StartedIf library loaded = record {
    at = λ s found.
        (give_up_if-StartedIf _ library loaded s found refl).at
          (system.vmb_startup tl_search_path s).1 refl;
  }

  start_or_leave-StartedIf :
      (library : ℕ) (b loaded : Bool)
      → Yields
          (λ s.
            Unit {0} × (b ≡ true → Resolved library (symbols_before ++ symbols_from_shutdown) s))
          StartedIf
          (if b then start_up system tl_search_path library loaded else leave system library loaded)
  unfolding leave
  start_or_leave-StartedIf library true loaded = record {
    at = λ s p. (start_up-StartedIf library loaded).at s (p.1 refl);
  }
  start_or_leave-StartedIf library false loaded = Yields-bind _ _ (Yields-any _) λ u.
      Yields-bind _ _ (Yields-any _) λ v. Yields-pure false (λ s' t w. absurd (ground (arith, w)))

  load_instance-StartedIf :
      (o : Option ℕ) → Yields (λ s. Unit {0}) StartedIf (load_instance system tl_search_path o)
  load_instance-StartedIf none = Yields-pure false (λ s u e. absurd (ground (arith, e)))
  load_instance-StartedIf (some library) =
      Yields-bind _ _ (load_functions-Found library _ false _)
        λ loaded. start_or_leave-StartedIf library loaded.0 loaded.1

  create_instance-StartedIf :
      Yields (λ s. Unit {0}) StartedIf (create_instance system tl_search_path)
  unfolding create_instance
  create_instance-StartedIf =
      Yields-bind _ _ (Yields-any (load_vmbc_library system))
        λ library. load_instance-StartedIf library

  after-Started :
      (r : Exit Bool × system.Os)
      → OnReturn StartedIf r
      → (after system r).0 ≡ value true
      → Started (after system r).1.os
  after-Started (value made, s) h e = h (ground (arith, e))
  after-Started (error c, s) h e = absurd (ground (arith, e))
  after-Started (aborted x, s) h e = absurd (ground (arith, e))

-- Where no instance is alive and get_instance gives one, there is a library in which each of the 56
-- functions of VmbC was found, and VmbStartup, called with the search path right after that, returned
-- VmbErrorSuccess and left the state that get_instance leaves.
pub get_instance-Started :
    (system : System) (tl_search_path : FilePath) (p : Process system.Os)
    → p.live ≡ false
    → (get_instance system tl_search_path p).0 ≡ value true
    → Started system tl_search_path (get_instance system tl_search_path p).1.os
unfolding get_instance
get_instance-Started system tl_search_path p l = rw l (
    after-Started system tl_search_path _
      ((create_instance-StartedIf system tl_search_path).at p.os tt))
