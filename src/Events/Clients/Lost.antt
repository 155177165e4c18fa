-- ===== src/Events/Clients/Lost.antt =====
-- A listening client whose event the timer gives up.
use vimbax_ros2_driver.Common.{
  ℕ, ◌≡◌, refl, ◌∙◌, String, false, Option, none, some, List, [], ◌∷◌, get_elem?, ◌==◌,
  if◌then◌else◌, arith, Option-cases, inl, inr,
}
use mathlib.Core.Path.{subst}
use vimbax_ros2_driver.Error.{ErrorMsg, is_success}
use vimbax_ros2_driver.Events.{Subscriptions, count_of, subscribe, unsubscribe, on_timer, unheard}
use vimbax_ros2_driver.Events.Clients.{
  Phase, requested, listening, closing, gone, answered, failed, Client, EventSystem, EventStep,
  request, serve, receive, drop, serve_last, check, enters, serve_at, receive_at, drop_at,
  serve_last_at, at_client, event_step, event_run,
}
use vimbax_ros2_driver.Events.Clients.Agreement.{IfAny}
use vimbax_ros2_driver.Events.Clients.Maps.{IsMap}
use vimbax_ros2_driver.Events.Clients.Counts.{on_timer-counts}
use vimbax_ros2_driver.Events.Clients.Requests.{
  asks, asking, Apart, AllApart, none-extract, none-subscribe, none-unsubscribe, get-set_other,
  asking-at, asking-set, asking-snoc, get-snoc, is_listening, apart,
}

module _ (name : String) (i : ℕ) where
  -- The publisher knows nothing of the event, nobody asks for it, and the client at `i` listens to it.
  abbrev pub IsLost : EventSystem → Type 0
  IsLost s =
      (count_of name s.subscriptions ≡ none)
      × (asking name s.clients ≡ 0)
      × (get_elem? s.clients i ≡ some (record { event_name = name; phase = listening }))

  enters-IsLost :
      (n : String) (j : ℕ) (p q : Phase) (m : Subscriptions) (s : EventSystem)
      → get_elem? s.clients j ≡ some (record { event_name = n; phase = p })
      → (j == i) ≡ false
      → asks name (record { event_name = n; phase = q }) ≡ 0
      → count_of name m ≡ none
      → IsLost s
      → IsLost (enters q j n (record s { subscriptions = m }))
  enters-IsLost n j p q m s e d z u h = (
    u,
    asking-set name n j p q s.clients e z h.1,
    get-set_other i j (record { event_name = n; phase = q }) s.clients d ∙ h.2,
  )

  module _ (n : String) (j : ℕ) (s : EventSystem) (h : IsLost s) where
    abbrev Stands : Phase → Type 0
    Stands p = get_elem? s.clients j ≡ some (record { event_name = n; phase = p })

    elsewhere : (p : Phase) → Stands p → is_listening p ≡ false → (j == i) ≡ false
    elsewhere p e l =
        apart i j (record { event_name = name; phase = listening })
          (record { event_name = n; phase = p }) s.clients h.2 e refl l

    serve_at-IsLost :
        (answer : String → ErrorMsg) (p : Phase) → Stands p → IfAny IsLost (serve_at answer p j n s)
    unfolding serve_at
    serve_at-IsLost answer requested e =
        enters-IsLost n j requested (answered (subscribe answer n s.subscriptions).error)
          (subscribe answer n s.subscriptions).subscriptions s e (elsewhere requested e refl)
          (ground arith)
          (none-subscribe name answer n s.subscriptions (asking-at name n j s.clients e h.1) h.0) h
    serve_at-IsLost answer p e = tt

    receive_at-IsLost : (p : Phase) → Stands p → IfAny IsLost (receive_at p j n s)
    unfolding receive_at
    receive_at-IsLost (answered error) e =
        enters-IsLost n j (answered error)
          (if is_success error.code then listening else failed error) s.subscriptions s e
          (elsewhere (answered error) e refl) (ground arith) h.0 h
    receive_at-IsLost p e = tt

    drop_at-IsLost : (j == i) ≡ false → (p : Phase) → Stands p → IfAny IsLost (drop_at p j n s)
    unfolding drop_at
    drop_at-IsLost d listening e =
        enters-IsLost n j listening closing s.subscriptions s e d (ground arith) h.0 h
    drop_at-IsLost d p e = tt

    serve_last_at-IsLost : (p : Phase) → Stands p → IfAny IsLost (serve_last_at p j n s)
    unfolding serve_last_at
    serve_last_at-IsLost closing e =
        enters-IsLost n j closing gone (unsubscribe n s.subscriptions).subscriptions s e
          (elsewhere closing e refl) (ground arith) (none-unsubscribe name n s.subscriptions h.0) h
    serve_last_at-IsLost p e = tt

  at_client-IsLost :
      (f : Phase → ℕ → String → EventSystem → Option EventSystem) (j : ℕ) (o : Option Client)
      (s : EventSystem)
      → get_elem? s.clients j ≡ o
      → ((p : Phase) (n : String)
          → get_elem? s.clients j ≡ some (record { event_name = n; phase = p })
          → IfAny IsLost (f p j n s))
      → IfAny IsLost (at_client f j o s)
  at_client-IsLost f j none s e k = tt
  at_client-IsLost f j (some c) s e k = k c.phase c.event_name e

  event_step-IsLost :
      (e : EventStep) (s : EventSystem) → Apart name i e → IsLost s → IfAny IsLost (event_step e s)
  unfolding event_step on_timer
  event_step-IsLost (request n) s a h = (
    h.0,
    ground (arith, asking-snoc name (record { event_name = n; phase = requested }) s.clients, h.1),
    get-snoc i _ (record { event_name = n; phase = requested }) s.clients h.2,
  )
  event_step-IsLost (serve j answer) s a h =
      at_client-IsLost (serve_at answer) j _ s refl (λ p n. serve_at-IsLost n j s h answer p)
  event_step-IsLost (receive j) s a h =
      at_client-IsLost receive_at j _ s refl (λ p n. receive_at-IsLost n j s h p)
  event_step-IsLost (drop j) s a h =
      at_client-IsLost drop_at j _ s refl (λ p n. drop_at-IsLost n j s h a p)
  event_step-IsLost (serve_last j) s a h =
      at_client-IsLost serve_last_at j _ s refl (λ p n. serve_last_at-IsLost n j s h p)
  event_step-IsLost (check f) s a h =
      (none-extract name (unheard f s.subscriptions) s.subscriptions h.0, h.1, h.2)

  event_run-IsLost :
      (es : List EventStep) (s t : EventSystem)
      → AllApart name i es
      → IsLost s
      → event_run es s ≡ some t
      → IsLost t
  unfolding event_run
  event_run-IsLost [] s t a h e = subst IsLost (ground arith) h
  event_run-IsLost (st ∷ es) s t a h e = elim (Option-cases (event_step st s)) [
    | inl n ↦ absurd (ground arith)
    | inr (u, n) ↦
        event_run-IsLost es u t a.1 (subst (IfAny IsLost) n (event_step-IsLost st s a.0 h))
          (ground arith)
  ]

  -- Let a client listen to an event that no request under way asks for, and let a pass of the timer
  -- find no subscription on it, as while the ROS graph has not yet matched the client's. Then the event
  -- is given up, and whatever happens, as long as nobody requests the event anew and the client is not
  -- dropped: the client goes on listening, and the publisher has no entry for the event.
  pub check-IsLost :
      (subscription_count : String → ℕ) (es : List EventStep) (s t : EventSystem)
      → IsMap s.subscriptions
      → subscription_count name ≡ 0
      → asking name s.clients ≡ 0
      → get_elem? s.clients i ≡ some (record { event_name = name; phase = listening })
      → AllApart name i es
      → event_run (check subscription_count ∷ es) s ≡ some t
      → IsLost t
  unfolding event_run event_step
  check-IsLost f es s t m z a l others e =
      event_run-IsLost es (record s { subscriptions = (on_timer f s.subscriptions).subscriptions })
        t others ((on_timer-counts f s.subscriptions m).1 name ∙ rw z refl, a, l) e
