-- ===== src/Events/Clients/Agreement.antt =====
-- The publisher's counts against the clients.
use vimbax_ros2_driver.Common.{
  ℕ, suc, ◌+◌, ◌^◌, ◌≤◌, ◌<◌, ◌≡◌, refl, String, Option, none, some, List, [], ◌∷◌, length,
  length-append, get_elem?, ==_iff, arith, Option-cases, Bool-cases, inl, inr,
}
use mathlib.Core.Path.{subst}
use vimbax_ros2_driver.Error.{ErrorMsg, is_success}
use vimbax_ros2_driver.Events.{subscribe, on_timer}
use vimbax_ros2_driver.Events.Clients.{
  Phase, requested, listening, closing, gone, answered, failed, Client, EventSystem, EventStep,
  request, serve, receive, drop, serve_last, check, set, enters, serve_at, receive_at, drop_at,
  serve_last_at, at_client, event_step, event_run,
}
use vimbax_ros2_driver.Events.Clients.Maps.{total}
use vimbax_ros2_driver.Events.Clients.Counts.{subscribe-Joined, unsubscribe-Left, on_timer-counts}
use vimbax_ros2_driver.Events.Clients.Holders.{
  holds, holders, Agrees, holders-le, holders-snoc, holders-set, length-set,
}

-- Where a client enters a phase that counts as its last one did.
enters-Agrees :
    (p q : Phase) (i : ℕ) (name : String) (s : EventSystem)
    → get_elem? s.clients i ≡ some (record { event_name = name; phase = p })
    → holds p ≡ holds q
    → Agrees s
    → Agrees (enters q i name s)
enters-Agrees p q i name s e w h = (
  h.0,
  λ x. ground (
    arith,
    h.1 x,
    holders-set x i (record { event_name = name; phase = p })
        (record { event_name = name; phase = q }) s.clients e,
  ),
)

-- What holds of the state after a step, if the step can happen.
abbrev pub IfAny : (EventSystem → Type 0) → Option EventSystem → Type 0
IfAny P none = Unit {0}
IfAny P (some s) = P s

abbrev After : EventSystem → EventSystem → Type 0
After s t = Agrees t × (length t.clients ≤ suc (length s.clients))

abbrev At : EventSystem → ℕ → String → Phase → Type 0
At s i name p = get_elem? s.clients i ≡ some (record { event_name = name; phase = p })

module _ (s : EventSystem) (h : Agrees s) (room : length s.clients + 1 < 2 ^ 64) where
  total-lt : (name : String) → total name s.subscriptions + 1 < 2 ^ 64
  total-lt name = omega (arith, h.1 name, holders-le name s.clients)

  module _ (i : ℕ) (name : String) where
    stays :
        (q : Phase)
        → length (set s.clients i (record { event_name = name; phase = q }))
          ≤ suc (length s.clients)
    stays q = omega (arith, length-set i (record { event_name = name; phase = q }) s.clients)

    serve_at-After :
        (answer : String → ErrorMsg) (p : Phase)
        → At s i name p
        → IfAny (After s) (serve_at answer p i name s)
    unfolding serve_at
    serve_at-After answer requested e =
        let o = subscribe answer name s.subscriptions in
        let j = subscribe-Joined answer name s.subscriptions h.0 (total-lt name) in
        (
          (
            j.0,
            λ x. ground (
              arith,
              j.1 x,
              h.1 x,
              holders-set x i (record { event_name = name; phase = requested })
                  (record { event_name = name; phase = answered o.error }) s.clients e,
            ),
          ),
          stays (answered o.error),
        )
    serve_at-After answer p e = tt

    receive_at-After : (p : Phase) → At s i name p → IfAny (After s) (receive_at p i name s)
    unfolding receive_at
    receive_at-After (answered error) e = elim (Bool-cases (is_success error.code)) [
      | inl good ↦
          rw good
            (enters-Agrees (answered error) listening i name s e (rw good refl) h, stays listening)
      | inr bad ↦ rw bad (
        enters-Agrees (answered error) (failed error) i name s e (rw bad refl) h,
        stays (failed error),
      )
    ]
    receive_at-After p e = tt

    drop_at-After : (p : Phase) → At s i name p → IfAny (After s) (drop_at p i name s)
    unfolding drop_at
    drop_at-After listening e = (enters-Agrees listening closing i name s e refl h, stays closing)
    drop_at-After p e = tt

    serve_last_at-After : (p : Phase) → At s i name p → IfAny (After s) (serve_last_at p i name s)
    unfolding serve_last_at
    serve_last_at-After closing e =
        let j = unsubscribe-Left name s.subscriptions h.0 (omega (arith, total-lt name)) in
        (
          (
            j.0,
            λ x. ground (
              arith,
              j.1 x,
              h.1 x,
              holders-set x i (record { event_name = name; phase = closing })
                  (record { event_name = name; phase = gone }) s.clients e,
            ),
          ),
          stays gone,
        )
    serve_last_at-After p e = tt

-- A pass of the timer overlooks nobody: where the ROS graph shows no subscription, no client counts.
abbrev pub Sees : EventStep → EventSystem → Type 0
Sees (check subscription_count) s =
    (name : String) → subscription_count name ≡ 0 → holders name s.clients ≡ 0
Sees e s = Unit {0}

at_client-After :
    (f : Phase → ℕ → String → EventSystem → Option EventSystem) (i : ℕ) (o : Option Client)
    (s : EventSystem)
    → get_elem? s.clients i ≡ o
    → ((p : Phase) (name : String) → At s i name p → IfAny (After s) (f p i name s))
    → IfAny (After s) (at_client f i o s)
at_client-After f i none s e k = tt
at_client-After f i (some c) s e k = k c.phase c.event_name e

check-Agrees :
    (f : String → ℕ) (s : EventSystem)
    → Sees (check f) s
    → Agrees s
    → Agrees (record s { subscriptions = (on_timer f s.subscriptions).subscriptions })
unfolding total
check-Agrees f s sees h =
    let r = on_timer-counts f s.subscriptions h.0 in
    (r.0, λ x. ground (arith, r.1 x, h.1 x, sees x, ==_iff (f x) 0))

event_step-After :
    (e : EventStep) (s : EventSystem)
    → Agrees s
    → length s.clients + 1 < 2 ^ 64
    → Sees e s
    → IfAny (After s) (event_step e s)
unfolding event_step
event_step-After (request name) s h room sees = (
  (
    h.0,
    λ x.
        ground (
          arith,
          h.1 x,
          holders-snoc x s.clients (record { event_name = name; phase = requested }),
        ),
  ),
  omega (arith, length-append {0} s.clients (record { event_name = name; phase = requested } ∷ [])),
)
event_step-After (serve i answer) s h room sees =
    at_client-After (serve_at answer) i _ s refl (λ p name. serve_at-After s h room i name answer p)
event_step-After (receive i) s h room sees =
    at_client-After receive_at i _ s refl (λ p name. receive_at-After s h room i name p)
event_step-After (drop i) s h room sees =
    at_client-After drop_at i _ s refl (λ p name. drop_at-After s h room i name p)
event_step-After (serve_last i) s h room sees =
    at_client-After serve_last_at i _ s refl (λ p name. serve_last_at-After s h room i name p)
event_step-After (check f) s h room sees = (check-Agrees f s sees h, omega arith)

-- Every pass of the timer during the run overlooks nobody.
abbrev pub AllSee : List EventStep → EventSystem → Type 0
AllSee [] s = Unit {0}
AllSee (e ∷ es) s = Sees e s × IfAny (AllSee es) (event_step e s)

-- Take a map with each name once, whose counts are the numbers of clients. Whatever clients request, get
-- and drop, in whatever interleaving, and whatever the owner answers: as long as no pass of the timer
-- finds no subscription on an event that has a client, the counts stay the numbers of clients, for fewer
-- clients than a size_t counts.
pub event_run-Agrees :
    (es : List EventStep) (s t : EventSystem)
    → Agrees s
    → length s.clients + length es < 2 ^ 64
    → AllSee es s
    → event_run es s ≡ some t
    → Agrees t
unfolding event_run
event_run-Agrees [] s t h room all e = subst Agrees (ground arith) h
event_run-Agrees (st ∷ es) s t h room all e = elim (Option-cases (event_step st s)) [
  | inl n ↦ absurd (ground arith)
  | inr (u, n) ↦
      let a : After s u = subst (IfAny (After s)) n (event_step-After st s h (omega arith) all.0) in
      event_run-Agrees es u t a.0 (omega (arith, a.1)) (subst (IfAny (AllSee es)) n all.1)
        (ground arith)
]
