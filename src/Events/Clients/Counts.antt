-- ===== src/Events/Clients/Counts.antt =====
-- The counts of the publisher's map after each of its operations.
use vimbax_ros2_driver.Common.{
  ℕ, ◌<◌, ◌^◌, ◌+◌, ◌-◌, ◌≡◌, ◌∙◌, String, none, ◌==◌, str_eq, eq_iff, if◌then◌else◌, arith,
  Bool-cases, Option-cases, inl, inr,
}
use vimbax_ros2_driver.Error.{ErrorMsg, is_success}
use vimbax_ros2_driver.Events.{
  Subscriptions, Outcome, count_of, subscribe, unsubscribe, unheard, on_timer, increment, decrement,
}
use vimbax_ros2_driver.Events.Clients.Maps.{
  IsMap, total, count_of-set_count, count_of-snoc, count_of-erase, IsMap-set_count, IsMap-snoc,
  IsMap-erase, subscribe_new, subscribe_refused, subscribe_again, total_of_count,
  unsubscribe_unknown, unsubscribe_last, unsubscribe_more, count_of-pos, erase-set_count,
  IsMap-extract, count_of-extract, if_unheard,
}

-- One more, if the owner agrees or has agreed before.
abbrev pub Joined : (String → ErrorMsg) → String → Subscriptions → Outcome → Type 0
Joined answer name m o =
    IsMap o.subscriptions
    × ((x : String)
        → total x o.subscriptions
          ≡ total x m + (if str_eq name x then if is_success o.error.code then 1 else 0 else 0))

pub subscribe-Joined :
    (answer : String → ErrorMsg) (name : String) (m : Subscriptions)
    → IsMap m
    → total name m + 1 < 2 ^ 64
    → Joined answer name m (subscribe answer name m)
unfolding total
subscribe-Joined answer name m h b = elim (Option-cases (count_of name m)) [
  | inl e ↦ elim (Bool-cases (is_success (answer name).code)) [
    | inl good ↦ rw (subscribe_new answer name m e good) (
      IsMap-snoc name 1 m (omega arith) e h,
      λ x. ground (arith, count_of-snoc x name 1 m, eq_iff name x),
    )
    | inr bad ↦ rw (subscribe_refused answer name m e bad) (h, λ x. ground arith)
  ]
  | inr (k, e) ↦ rw (subscribe_again answer name m k e) (
    IsMap-set_count name (increment k) m (omega (arith, total_of_count name k m e)) h,
    λ x. ground (
      arith,
      count_of-set_count x name (increment k) k m,
      eq_iff name x,
      total_of_count name k m e,
    ),
  )
]

abbrev pub Left : String → Subscriptions → Subscriptions → Type 0
Left name m m' =
    IsMap m' × ((x : String) → total x m' ≡ (if str_eq name x then total x m - 1 else total x m))

-- One less.
pub unsubscribe-Left :
    (name : String) (m : Subscriptions)
    → IsMap m
    → total name m < 2 ^ 64
    → Left name m (unsubscribe name m).subscriptions
unfolding total
unsubscribe-Left name m h b = elim (Option-cases (count_of name m)) [
  | inl e ↦ rw (unsubscribe_unknown name m e) (h, λ x. ground (arith, eq_iff name x))
  | inr (k, e) ↦
      let p : 0 < k = count_of-pos name k m h e in
      let t : total name m ≡ k = total_of_count name k m e in
      elim (Bool-cases (decrement k == 0)) [
        | inl last ↦
            rw (unsubscribe_last name m k e last, erase-set_count name (decrement k) m)
              (IsMap-erase name m h, λ x. ground (arith, count_of-erase x name m h, eq_iff name x))
        | inr more ↦ rw (unsubscribe_more name m k e more) (
          IsMap-set_count name (decrement k) m (ground arith) h,
          λ x. ground (arith, count_of-set_count x name (decrement k) k m, eq_iff name x),
        )
      ]
]

-- None where the timer sees nobody, and the others as they are.
pub on_timer-counts :
    (subscription_count : String → ℕ) (m : Subscriptions)
    → IsMap m
    → IsMap (on_timer subscription_count m).subscriptions
      × ((x : String)
          → count_of x (on_timer subscription_count m).subscriptions
            ≡ (if subscription_count x == 0 then none else count_of x m))
unfolding on_timer
on_timer-counts f m h =
    (IsMap-extract (unheard f m) m h, λ x. count_of-extract x (unheard f m) m h ∙ if_unheard x f m)
