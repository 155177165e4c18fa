-- ===== src/Events/Runs.antt =====
-- Any sequence of steps of a publisher.
use vimbax_ros2_driver.Common.{
  ◌≡◌, refl, ◌∙◌, String, some, List, [], ◌∷◌, ◌++◌, arith, Option-cases, inl, inr,
}
use vimbax_ros2_driver.Events.{
  Subscriptions, OwnerCall, PublisherStep, subscribe_step, unsubscribe_step, timer_step,
  publisher_step, publisher_run,
}
use vimbax_ros2_driver.Events.Balance.{
  accept, accept_all, names_of, IsBalanced, subscribe-IsBalanced, unsubscribe-IsBalanced,
  on_timer-IsBalanced,
}

accept_all-append :
    (cs ds : List OwnerCall) (names names' : List String)
    → accept_all cs names ≡ some names'
    → accept_all (cs ++ ds) names ≡ accept_all ds names'
unfolding accept_all
accept_all-append [] ds names names' e = ground arith
accept_all-append (c ∷ cs) ds names names' e = elim (Option-cases (accept c names)) [
  | inl n ↦ ground arith
  | inr (x, s) ↦ ground (arith, accept_all-append cs ds x names')
]

publisher_step-IsBalanced :
    (s : PublisherStep) (m : Subscriptions) → IsBalanced m (publisher_step s m)
unfolding publisher_step
publisher_step-IsBalanced (subscribe_step answer name) m = subscribe-IsBalanced answer name m
publisher_step-IsBalanced (unsubscribe_step name) m = unsubscribe-IsBalanced name m
publisher_step-IsBalanced (timer_step subscription_count) m =
    on_timer-IsBalanced subscription_count m

-- From a map whose names are the registered events, whatever requests a publisher gets, in whatever
-- order, however its timer falls between them and whatever the owner answers: the calls to the owner
-- never register an event twice and never unregister one that is not registered, and afterwards the
-- registered events are the names of the map again.
pub publisher_run-accept_all :
    (ss : List PublisherStep) (m : Subscriptions)
    → accept_all (publisher_run ss m).0 (names_of m) ≡ some (names_of (publisher_run ss m).1)
unfolding publisher_run
publisher_run-accept_all [] m = unfold accept_all in refl
publisher_run-accept_all (s ∷ ss) m =
    accept_all-append (publisher_step s m).calls _ (names_of m) _ (publisher_step-IsBalanced s m)
    ∙ publisher_run-accept_all ss (publisher_step s m).subscriptions
