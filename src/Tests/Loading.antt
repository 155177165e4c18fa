-- ===== src/Tests/Loading.antt =====
-- Loading a library on a small system.
use vimbax_ros2_driver.Common.{
  ℕ, ◌≡◌, refl, true, false, none, some, [], ◌∷◌, ◌++◌, value, aborted, filesystem_error,
  dangling_call, not, ◌>>=◌, str_eq,
}
use vimbax_ros2_driver.Error.{success}
use vimbax_ros2_driver.Loader.{split_string, find, substr}
use vimbax_ros2_driver.Loader.Instance.{
  System, Process, get_instance, create_instance, load_vmbc_library, load_functions, start_up,
  leave, library_in, by_home, by_gentl, getenv_safe,
}
use vimbax_ros2_driver.Loader.Instance.Outcomes.{Started, get_instance-Started}

-- A system that finds the library by its name, with all its functions.
abbrev plain : System
plain = record {
  Os = ℕ;
  getenv = λ s name. none;
  exists = λ s path. false;
  canonical = λ s path. none;
  join = λ a b. a ++ b'/' ∷ b;
  dlopen = λ path s. (some 1, s);
  dlsym = λ library name s. true;
  dlclose = λ library s. s;
  vmb_startup = λ path s. (success, 7);
  vmb_shutdown = λ s. 0;
}

abbrev fresh : Process ℕ
fresh = record { os = 0; live = false }

loads : (get_instance plain [] fresh).0 ≡ value true
unfolding get_instance create_instance load_vmbc_library load_functions start_up leave getenv_safe
    by_home by_gentl split_string ◌>>=◌
loads = refl

get_instance-Started_example : Started plain [] (get_instance plain [] fresh).1.os
get_instance-Started_example = get_instance-Started plain [] fresh refl loads

-- With VmbStartup missing, the destructor of the instance calls into the closed library.
missing_startup :
    (get_instance
      (record plain { dlsym = λ library name s. not (str_eq name "VmbStartup") })
      []
      fresh).0
    ≡ aborted dangling_call
unfolding get_instance create_instance load_vmbc_library load_functions start_up leave getenv_safe
    by_home by_gentl split_string ◌>>=◌
missing_startup = refl

-- VIMBA_X_HOME names a directory that exists, and has no directory api/lib.
home_without_lib :
    (get_instance
      (record plain { getenv = λ s name. some (b'/' ∷ []); exists = λ s path. true })
      []
      fresh).0
    ≡ aborted filesystem_error
unfolding get_instance create_instance load_vmbc_library load_functions start_up leave getenv_safe
    by_home by_gentl library_in split_string find substr ◌>>=◌
home_without_lib = refl
